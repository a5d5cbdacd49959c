-- ===== src/Tool/Dispatch.antt =====
-- What the program runs for a command line.
use uctool.Common.{◌≡◌, refl, ap, Bool, false, List, [], ◌∷◌, Bytes, ltb, length, arith}
use uctool.StdMap.{find}
use uctool.StdMap.Filling.{look_up, add_all-find, keys-InOrder, InOrder}
use uctool.Tool.{listed, dispatch, command_table, register_cmd, show_cmds, main_tool}

-- With a command on the line, the program runs what the table has first under that name, with the
-- whole command line, and complains about any other name; without one it lists names, each once and in
-- order.
pub main_tool-chosen :
    (mysql_enable : Bool) (prog : Bytes)
    → ((name : Bytes) (rest : List Bytes)
        → main_tool mysql_enable (prog ∷ name ∷ rest)
          ≡ dispatch (look_up name (command_table mysql_enable)) (prog ∷ name ∷ rest))
      × ((names : List Bytes) × (main_tool mysql_enable (prog ∷ []) ≡ listed names) × InOrder names)
unfolding main_tool register_cmd find show_cmds
main_tool-chosen mysql_enable prog = (
  λ name rest.
      let few : ltb (length (prog ∷ name ∷ rest)) 2 ≡ false = ground arith in
      let (_, found) = add_all-find name (command_table mysql_enable) [] tt in
      rw (few, main_tool) (ap (λ o. dispatch o (prog ∷ name ∷ rest)) found),
  (
    show_cmds (register_cmd mysql_enable),
    refl,
    keys-InOrder (register_cmd mysql_enable) (add_all-find [] (command_table mysql_enable) [] tt).0,
  ),
)
