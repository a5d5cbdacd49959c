-- ===== src/Tests/CodecTests.antt =====
-- codec.h on two short messages that arrive in three pieces, and on a header beyond the limit.
use uctool.Common.{◌≡◌, refl, List, [], ◌∷◌, ◌++◌, map, Bytes, codes, arith}
use uctool.Codec.{waiting, shut_down, on_message, send, judge, turn}
use uctool.Codec.Wire.{frame, concat}
use uctool.Codec.Delivery.{sent, start, receive_all, receive_all-sent, receive_all-oversize}
use uctool.Tests.ListBuffer.{list_buffer}
use uctool.Tests.Toys.{zeros, length-zeros}

-- A server that keeps its messages.
abbrev keep_message : List Bytes → Bytes → List Bytes
keep_message ms m = ms ++ m ∷ []

abbrev two_messages : List Bytes
two_messages = codes "ab" ∷ codes "c" ∷ []

abbrev three_pieces : List Bytes
three_pieces = (0 ∷ 0 ∷ []) ∷ (0 ∷ 2 ∷ 97 ∷ []) ∷ (98 ∷ 0 ∷ 0 ∷ 0 ∷ 1 ∷ 99 ∷ []) ∷ []

two_messages_wire : concat (map (sent list_buffer) two_messages) ≡ concat three_pieces
unfolding send
two_messages_wire = refl

two_messages_arrive :
    receive_all list_buffer keep_message (start list_buffer keep_message []) three_pieces
    ≡ record { buffer = []; state = two_messages; verdict = waiting }
unfolding on_message turn judge
two_messages_arrive = refl

receive_all-sent_example :
    let o = receive_all list_buffer keep_message (start list_buffer keep_message []) three_pieces in
    (o.state ≡ two_messages) × (o.buffer ≡ []) × (o.verdict ≡ waiting)
receive_all-sent_example =
    receive_all-sent list_buffer keep_message two_messages three_pieces [] (omega arith)
      (unfold send in refl)

receive_all-oversize_example :
    let m = zeros 65537 in
    let o =
      receive_all list_buffer keep_message
        (start list_buffer keep_message [])
        (sent list_buffer m ∷ []) in
    (o.state ≡ []) × (o.buffer ≡ frame m ++ []) × (o.verdict ≡ shut_down)
receive_all-oversize_example =
    receive_all-oversize list_buffer keep_message [] (zeros 65537) []
      (sent list_buffer (zeros 65537) ∷ []) [] tt (rw length-zeros (omega arith))
      (rw length-zeros (omega arith)) refl
