-- ===== src/Tests/IdleTests.antt =====
-- The timer on two connections, one of which has been idle.
use uctool.Common.{List, []}
use uctool.Center.Idle.{Entry, connection_up}

abbrev one_up : List Entry
one_up = connection_up 1 5 []

abbrev two_up : List Entry
two_up = connection_up 2 9000000 one_up
