-- ===== src/ScriptTool.antt =====
-- tools/scripttool.cc: the script of an address, and the prefixes of base58 texts. Addresses and
-- scripts are the chain's; `args` is `argv`, and the result is the text that is printed.
use uctool.Common.{
  ℕ, ◌≡◌, Bool, true, false, not, List, [], ◌∷◌, ◌++◌, Bytes, codes, length, get_or, ltb,
  if◌then◌else◌, ℤ, pos, append-nil, append_assoc,
}
use uctool.Numbers.{show_int}

pub record ScriptApi : Type 1 where
  pub Destination : Type 0
  -- `CBitcoinAddress`: `IsValid` and `Get` of a text, `ToString` of a destination
  pub is_valid : Bytes → Bool
  pub get : Bytes → Destination
  pub to_string : Destination → Bytes
  pub get_script_for_destination : Destination → Bytes
  pub hex_str : Bytes → Bytes
  pub script_to_asm_str : Bytes → Bytes
  -- `ExtractDestinations`: whether it succeeds, the type, the destinations, the number required.
  pub extract_destinations : Bytes → Bool × ℕ × List Destination × ℤ
  pub get_txn_output_type : ℕ → Bytes
  -- `Params().Base58Prefix` of each kind
  pub pubkey_address : Bytes
  pub script_address : Bytes
  pub secret_key : Bytes
  pub ext_public_key : Bytes
  pub ext_secret_key : Bytes
  pub ext_coin_type : Bytes

abbrev pub line_end : Bytes
line_end = codes "\n"

abbrev pub scriptpub_help : Bytes
scriptpub_help =
    codes
      "Command \"scriptpub\" example :\nscriptpub address\nscriptpub UXVAK4VXpMA7Lyy3DCnEGLWurTjfbT6ie7\n"

module _ (api : ScriptApi) where
  open api use {Destination}

  -- The loop over the addresses of a script.
  unfoldable pub address_list : List Destination → Bytes
  address_list [] = []
  address_list (d ∷ ds) = api.to_string d ++ codes " " ++ address_list ds

  -- The lambda at the end of `GetPubScript`.
  unfoldable pub destination_text : Bool × ℕ × List Destination × ℤ → Bytes
  destination_text (found, type, addresses, required) =
      if not found
      then codes "type:      " ++ api.get_txn_output_type type ++ line_end
      else codes "reqSigs:   "
        ++ show_int required
        ++ codes "\ntype:      "
        ++ api.get_txn_output_type type
        ++ codes "\naddresses: "
        ++ address_list addresses
        ++ line_end

  -- `GetPubScript`
  unfoldable pub get_pub_script : List Bytes → Bytes
  get_pub_script args =
      if ltb (length args) 3
      then scriptpub_help
      else (if not (api.is_valid (get_or args 2 []))
          then codes "Invalid address!\n"
          else (let script = api.get_script_for_destination (api.get (get_or args 2 [])) in
              codes "Hex:       "
              ++ api.hex_str script
              ++ codes "\nasm:       "
              ++ api.script_to_asm_str script
              ++ line_end
              ++ destination_text (api.extract_destinations script)))

  -- `printVch`: the numbers, one on each line.
  unfoldable pub byte_lines : Bytes → Bytes
  byte_lines [] = []
  byte_lines (b ∷ bs) = show_int (pos b) ++ line_end ++ byte_lines bs

  abbrev pub print_vch : Bytes → Bytes → Bytes
  print_vch name vch = codes "type " ++ name ++ codes ":\n" ++ byte_lines vch

  -- `ShowBase58Prefix`
  unfoldable pub show_base58_prefix : Bytes
  show_base58_prefix =
      print_vch (codes "PUBKEY_ADDRESS") api.pubkey_address
      ++ print_vch (codes "SCRIPT_ADDRESS") api.script_address
      ++ print_vch (codes "SECRET_KEY") api.secret_key
      ++ print_vch (codes "EXT_PUBLIC_KEY") api.ext_public_key
      ++ print_vch (codes "EXT_SECRET_KEY") api.ext_secret_key
      ++ print_vch (codes "EXT_COIN_TYPE") api.ext_coin_type

  -- For a valid address the last line names that address and no other, where the chain finds in the
  -- script of a destination just that destination, and prints the destination of a valid address as
  -- this address; the text in front of it depends on the script alone.
  pub get_pub_script-names :
      (args : List Bytes) (type : ℕ)
      → ltb (length args) 3 ≡ false
      → let address : Bytes = get_or args 2 [] in
        let script : Bytes = api.get_script_for_destination (api.get address) in
        api.is_valid address ≡ true
        → api.extract_destinations script ≡ (true, type, api.get address ∷ [], pos 1)
        → api.to_string (api.get address) ≡ address
        → get_pub_script args
          ≡ codes "Hex:       "
            ++ api.hex_str script
            ++ codes "\nasm:       "
            ++ api.script_to_asm_str script
            ++ codes "\nreqSigs:   1\ntype:      "
            ++ api.get_txn_output_type type
            ++ codes "\naddresses: "
            ++ address
            ++ codes " \n"
  unfolding get_pub_script destination_text address_list show_int
  get_pub_script-names args type enough ok found same =
      rw (enough, ok, found, same) (simp (append_assoc, append-nil))
