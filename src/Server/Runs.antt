-- ===== src/Server/Runs.antt =====
-- What holds of every run of the server.
use uctool.Common.{
  ℕ, ◌+◌, ◌<◌, ◌≡◌, ◌≢◌, refl, sym, ap, subst, ◌∙◌, ◌⊎◌, inl, inr, List, [], ◌∷◌, map, foldl,
  Option, some, Bytes, All, All-append, ℤ, arith, Option-cases,
}
use uctool.Net.{BufferApi}
use uctool.Codec.Wire.{IsSendable, concat}
use uctool.Codec.Connections.{fresh, arrive}
use uctool.Codec.Connections.Tagged.{from}
use uctool.Codec.Connections.Isolation.{arrivals-sent}
use uctool.Codec.Delivery.{sent}
use uctool.Chain.{ChainApi, Item}
use uctool.KeyRing.{init_keys}
use uctool.KeyRing.Loading.{Chained, init_keys-Chained}
use uctool.Mysql.{MysqlApi, Session, Answer, done, null_handle, out_of_fuel}
use uctool.Mysql.Post.{Post, Post-bind}
use uctool.Db.{DbConfig}
use uctool.Center.{Center}
use uctool.Center.Keyed.{IsKeyed}
use uctool.Center.Requests.{Handled, replied, silent, unreadable, thrown}
use uctool.Center.Covered.{IsCovered, Safe}
use uctool.Center.Start.{init_cache-IsKeyed}
use uctool.Center.Replies.{on_string_message-IsCoveredReply}
use uctool.Server.{Server, running, ended, behind, serve, init_ucenter_key}

module _ (chain : ChainApi) (mysql : MysqlApi) where
  -- A reply that gives no private key away.
  abbrev pub IsCoveredText : List (ℕ × Bytes) → ℕ × Bytes → Type 0
  IsCoveredText keys (k, bytes) =
      (items : List Item) × All (IsCovered chain keys) items
      × ((bytes ≡ chain.encode_boost items) ⊎ (bytes ≡ chain.encode_stream items))

  abbrev pub IsSafe : List (ℕ × Bytes) → Server chain mysql → Type 0
  IsSafe keys (running count out c s) =
      All (IsCoveredText keys) out × IsKeyed c.mnode_list × (c.ucenter_keys ≡ keys)
  IsSafe keys (ended out) = All (IsCoveredText keys) out

  -- What a successful start leaves.
  abbrev Started : (ℕ → Bytes) → ℕ → Option Center → Session mysql → Type 0
  Started arg fuel r t =
      (c : Center)
      → r ≡ some c
      → IsKeyed c.mnode_list × (init_keys chain arg fuel ≡ some c.ucenter_keys)

  init_ucenter_key-Started :
      (arg : ℕ → Bytes) (fuel : ℕ) (db : DbConfig) (s : Session mysql)
      → Post mysql (Started arg fuel) (init_ucenter_key chain mysql arg fuel db s)
  unfolding init_ucenter_key
  init_ucenter_key-Started arg fuel db s = elim (Option-cases (init_keys chain arg fuel)) [
    | inl e ↦ rw (e, init_ucenter_key) (λ c no_one. absurd (ground (arith, no_one)))
    | inr (keys, e) ↦
        let fresh : Center = record { ucenter_keys = keys; db = db; mnode_list = [] } in
        rw (e, init_ucenter_key)
          (Post-bind mysql (λ c' t. IsKeyed c'.mnode_list × (c'.ucenter_keys ≡ keys)) _ _ _
            (init_cache-IsKeyed chain mysql fresh s)
            λ c' t h c is.
              let same : c' ≡ c = ground (arith, is) in
              subst (λ x. IsKeyed x.mnode_list × (init_keys chain arg fuel ≡ some x.ucenter_keys))
                same (h.0, e ∙ ap some (sym h.1)))
  ]

  loaded_keys :
      (arg : ℕ → Bytes) (gap fuel : ℕ) (keys : List (ℕ × Bytes))
      → gap < fuel
      → arg (gap + 1) ≡ []
      → init_keys chain arg fuel ≡ some keys
      → (keys ≢ []) × Chained chain arg 1 keys
  loaded_keys arg gap fuel keys small last e =
      elim (init_keys-Chained chain arg gap fuel small last) [
        | inl (found, is, some_keys, chained) ↦
            let same : found ≡ keys = ground (arith, is, e) in
            (subst (λ l. l ≢ []) same some_keys, subst (Chained chain arg 1) same chained)
        | inr (none_found, why) ↦ absurd (ground (arith, none_found, e))
      ]

  module _ (expectlen expectlen_noboost : ℕ) (clock : ℕ → ℤ) where
    behind-IsSafe :
        (keys : List (ℕ × Bytes)) (k count : ℕ) (out : List (ℕ × Bytes)) (c : Center)
        (r : Answer mysql (Handled × Center))
        → All (IsCoveredText keys) out
        → c.ucenter_keys ≡ keys
        → Post mysql (Safe chain mysql c) r
        → IsSafe keys (behind chain mysql expectlen expectlen_noboost clock k count out r)
    unfolding behind
    behind-IsSafe keys k count out c (done (replied reply, c') s) a e h = (
      All-append (IsCoveredText keys) out ((k, reply) ∷ []) a
          (subst (λ ks. IsCoveredText ks (k, reply)) e h.2, tt),
      h.0,
      h.1 ∙ e,
    )
    behind-IsSafe keys k count out c (done (silent, c') s) a e h = (a, h.0, h.1 ∙ e)
    behind-IsSafe keys k count out c (done (unreadable, c') s) a e h = (a, h.0, h.1 ∙ e)
    behind-IsSafe keys k count out c (done (thrown, c') s) a e h = a
    behind-IsSafe keys k count out c null_handle a e h = a
    behind-IsSafe keys k count out c out_of_fuel a e h = a

    serve-IsSafe :
        (keys : List (ℕ × Bytes)) (server : Server chain mysql) (message : ℕ × Bytes)
        → IsSafe keys server
        → IsSafe keys (serve chain mysql expectlen expectlen_noboost clock server message)
    unfolding serve
    serve-IsSafe keys (running count out c s) (k, message) h =
        behind-IsSafe keys k count out c _ h.0 h.2 (
          on_string_message-IsCoveredReply chain mysql expectlen expectlen_noboost c message
            (clock count) s h.1)
    serve-IsSafe keys (ended out) message h = h

    serve_all-IsSafe :
        (keys : List (ℕ × Bytes)) (ms : List (ℕ × Bytes)) (server : Server chain mysql)
        → IsSafe keys server
        → IsSafe keys (foldl (serve chain mysql expectlen expectlen_noboost clock) server ms)
    serve_all-IsSafe keys [] server h = h
    serve_all-IsSafe keys (m ∷ ms) server h =
        serve_all-IsSafe keys ms (serve chain mysql expectlen expectlen_noboost clock server m)
          (serve-IsSafe keys server m h)

    -- What is left of the streams where the server still runs: nothing, and the messages handled are
    -- each connection's own, in order. A server that an exception has ended is gone with its
    -- buffers.
    abbrev pub Consumed :
        (net : BufferApi)
        → (ℕ → List Bytes)
        → (ℕ → net.Buffer)
        → List (ℕ × Bytes)
        → Server chain mysql
        → Type 0
    Consumed net requests buffers log (running count out c s) =
        (k : ℕ) → (from k log ≡ requests k) × (net.contents (buffers k) ≡ [])
    Consumed net requests buffers log (ended out) = Unit

    all-Consumed :
        (net : BufferApi) (requests : ℕ → List Bytes) (buffers : ℕ → net.Buffer)
        (log : List (ℕ × Bytes)) (server : Server chain mysql)
        → ((k : ℕ) → (from k log ≡ requests k) × (net.contents (buffers k) ≡ []))
        → Consumed net requests buffers log server
    all-Consumed net requests buffers log (running count out c s) h = h
    all-Consumed net requests buffers log (ended out) h = tt

    -- The whole center, on any number of connections. It was started on keys and a database, with a
    -- cache filled from it; then bytes arrive at the connections in any order and in any pieces, the
    -- bytes of each connection being a stream of messages of at most 65536 bytes. The center is then
    -- as some sequence of messages, handled one after the other, leaves it; if it still runs, each
    -- connection has just its own messages in that sequence, in order, and no byte is left over; it
    -- then holds the configured keys from 1 on; and of what it has sent, whether it still runs or an
    -- exception has ended it, each reply is a serialisation of objects without a private key: the
    -- field of a node holds "secret", and a key is the public key of one of the center's, in
    -- hexadecimal. The keys end somewhere in the configuration, within the fuel.
    pub serve-sent :
        (net : BufferApi) (arg : ℕ → Bytes) (gap fuel : ℕ) (db : DbConfig) (s t : Session mysql)
        (c : Center) (requests : ℕ → List Bytes) (es : List (ℕ × Bytes))
        → gap < fuel
        → arg (gap + 1) ≡ []
        → init_ucenter_key chain mysql arg fuel db s ≡ done (some c) t
        → ((k : ℕ) → All IsSendable (requests k))
        → ((k : ℕ) → concat (from k es) ≡ concat (map (sent net) (requests k)))
        → let handle = serve chain mysql expectlen expectlen_noboost clock in
          let first = running 0 [] c t in
          let w = foldl (arrive net handle) (fresh net first) es in
          (log : List (ℕ × Bytes)) × (w.shared ≡ foldl handle first log)
          × Consumed net requests w.buffers log w.shared
          × IsSafe c.ucenter_keys w.shared
          × (c.ucenter_keys ≢ [])
          × Chained chain arg 1 c.ucenter_keys
    serve-sent net arg gap fuel db s t c requests es small last begun sendable whole =
        let handle = serve chain mysql expectlen expectlen_noboost clock in
        let first : Server chain mysql = running 0 [] c t in
        let (keyed, keys) =
          subst (Post mysql (Started arg fuel)) begun (init_ucenter_key-Started arg fuel db s) c
            refl in
        let (log, same, each) = arrivals-sent net handle first es requests sendable whole in
        let (not_nil, chained) = loaded_keys arg gap fuel c.ucenter_keys small last keys in
        (
          log,
          same,
          all-Consumed net requests _ log _ each,
          subst (IsSafe c.ucenter_keys) (sym same)
              (serve_all-IsSafe c.ucenter_keys log first (tt, keyed, refl)),
          not_nil,
          chained,
        )
