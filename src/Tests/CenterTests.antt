-- ===== src/Tests/CenterTests.antt =====
-- The center on a cache of one node.
use uctool.Common.{◌≡◌, refl, true, false, [], ◌∷◌, codes, pos, arith}
use uctool.Mysql.{done}
use uctool.Mysql.Post.{Post}
use uctool.Node.{coin_of}
use uctool.Center.{Center, select_mn_data}
use uctool.Center.Keyed.{IsKeyed}
use uctool.Center.Cache.{Found, AskedFor, select_mn_data-Found}
use uctool.Center.View.{Overlaid, wanted, select_mn_data-Overlaid}
use uctool.Center.Requests.{answer, on_string_message, thrown}
use uctool.Center.Covered.{IsCoveredReply}
use uctool.Center.Replies.{
  IsReply, answer-IsReply, on_string_message-IsCoveredReply, on_string_message_raw,
}
use uctool.Tests.Toys.{toy_chain, toy_mysql, toy_info, toy_session, toy_quest, bound_node}

abbrev pub toy_center : Center
toy_center = record {
  ucenter_keys = (1, 7 ∷ []) ∷ [];
  db = record { tablename = codes "t"; dbinfo = toy_info; need_update_period = pos 50 };
  mnode_list = (coin_of (bound_node (pos 400)), bound_node (pos 400)) ∷ [];
}

pub toy_center-IsKeyed : IsKeyed toy_center.mnode_list
toy_center-IsKeyed = (refl, tt)

select_mn_data-Found_example :
    Post
      (toy_mysql 0 true)
      (λ (found, c') t.
        Found toy_center (codes "tx") 1 found c'
        × AskedFor toy_chain
            (toy_mysql 0 true)
            toy_center
            (codes "tx")
            1
            (pos 380)
            (toy_session 0 true false)
            t)
      (select_mn_data toy_chain
        (toy_mysql 0 true)
        toy_center
        (codes "tx")
        1
        (pos 380)
        (toy_session 0 true false))
select_mn_data-Found_example =
    select_mn_data-Found toy_chain (toy_mysql 0 true) toy_center (codes "tx") 1 (pos 380)
      (toy_session 0 true false) toy_center-IsKeyed

answer-IsReply_example :
    Post
      (toy_mysql 0 true)
      (λ r t. IsKeyed r.1.mnode_list × IsReply toy_chain toy_center (toy_quest (codes "tx")) r.0)
      (answer toy_chain
        (toy_mysql 0 true)
        toy_center
        (toy_quest (codes "tx"))
        (pos 380)
        (toy_session 0 true false))
answer-IsReply_example =
    answer-IsReply toy_chain (toy_mysql 0 true) (λ t n. (refl, refl)) toy_center
      (toy_quest (codes "tx")) (pos 380) (toy_session 0 true false) toy_center-IsKeyed

on_string_message-IsCoveredReply_example :
    Post
      (toy_mysql 0 true)
      (λ r t.
        IsKeyed r.1.mnode_list
        × (r.1.ucenter_keys ≡ toy_center.ucenter_keys)
        × IsCoveredReply toy_chain (toy_mysql 0 true) toy_center.ucenter_keys r.0)
      (on_string_message toy_chain
        (toy_mysql 0 true)
        3
        2
        toy_center
        (codes "tx")
        (pos 100)
        (toy_session 0 true false))
on_string_message-IsCoveredReply_example =
    on_string_message-IsCoveredReply toy_chain (toy_mysql 0 true) 3 2 toy_center (codes "tx")
      (pos 100) (toy_session 0 true false) toy_center-IsKeyed

on_string_message_raw_example :
    on_string_message toy_chain
      (toy_mysql 0 true)
      4
      2
      toy_center
      (codes "GET ")
      (pos 100)
      (toy_session 0 true false)
    ≡ done (thrown, toy_center) (toy_session 0 true false)
on_string_message_raw_example =
    on_string_message_raw toy_chain (toy_mysql 0 true) 4 2 toy_center (codes "GET ") (pos 100)
      (toy_session 0 true false) refl (omega arith) refl

select_mn_data-Overlaid_example :
    Post
      (toy_mysql 0 true)
      (λ r t.
        Overlaid toy_chain
          (toy_mysql 0 true)
          toy_center
          (wanted toy_center (codes "tx") 1 (pos 380))
          (record { coin_txid = codes "tx"; coin_voutid = 1 })
          (toy_session 0 true false)
          r.0
          r.1
          t)
      (select_mn_data toy_chain
        (toy_mysql 0 true)
        toy_center
        (codes "tx")
        1
        (pos 380)
        (toy_session 0 true false))
select_mn_data-Overlaid_example =
    select_mn_data-Overlaid toy_chain (toy_mysql 0 true) toy_center (codes "tx") 1 (pos 380)
      (toy_session 0 true false)
