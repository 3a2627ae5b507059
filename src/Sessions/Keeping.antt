-- ===== src/Sessions/Keeping.antt =====
-- A session is not lost when it is closed.
use ajah.Prelude.{
  ◌≡◌, ◌⊎◌, String, List, [], ◌∷◌, Option, none, some, ok, err, Option-cases, Result-cases, map,
  inl, inr, arith,
}
use ajah.Text.{Bytes}
use ajah.Float.{Float64}
use ajah.Sessions.{traces_key, meta_key}
use ajah.Sessions.Closing.{
  Buffers, Writer, Parsers, SessionMeta, Closing, CloseError, decode_all, turns_of, get_turns,
  meta_of, write_to, store_session, close_session,
}

module _ (f : Float64) {T : Type 0} (decode : Bytes → Option T) (quality_score : T → f.F) where
  -- Where all traces decode, GetTurns gives the same ones as CloseSession.
  turns_of-decode_all :
      (raws : List Bytes) (ts : List T)
      → decode_all f decode quality_score raws ≡ some ts
      → turns_of f decode quality_score raws ≡ ts
  unfolding decode_all turns_of
  turns_of-decode_all [] ts h = ground arith
  turns_of-decode_all (raw ∷ raws) ts h = elim (Option-cases (decode raw)) [
    | inl e ↦ absurd (ground arith)
    | inr (t, e) ↦ elim (Option-cases (decode_all f decode quality_score raws)) [
      | inl rest ↦ absurd (ground arith)
      | inr (us, rest) ↦
          let same : turns_of f decode quality_score raws ≡ us = turns_of-decode_all raws us rest in
          ground (arith, same)
    ]
  ]

  -- What decode_all gives are all the entries of the list, decoded in order.
  map-decode_all :
      (raws : List Bytes) (ts : List T)
      → decode_all f decode quality_score raws ≡ some ts
      → map decode raws ≡ map some ts
  unfolding decode_all
  map-decode_all [] ts h = ground arith
  map-decode_all (raw ∷ raws) ts h = elim (Option-cases (decode raw)) [
    | inl e ↦ absurd (ground arith)
    | inr (t, e) ↦ elim (Option-cases (decode_all f decode quality_score raws)) [
      | inl rest ↦ absurd (ground arith)
      | inr (us, rest) ↦
          let same : map decode raws ≡ map some us = map-decode_all raws us rest in
          ground (arith, same)
    ]
  ]

  module _ {Db : Type 0} (b : Buffers Db) (p : Parsers f) (ch : Option (Writer f)) (id : String)
      (db : Db) where
    abbrev pub closing : Closing f decode quality_score Db
    closing = close_session f decode quality_score b p ch id db

    -- CloseSession fails with Redis as it was and nothing written; or it reads the session's fields and
    -- its list, every entry of the list decodes, in order, to one of the traces, so that GetTurns gives
    -- the same ones, the session that is made of these fields and these traces is written, if there is
    -- ClickHouse, and only then its two keys are deleted. In that case it gives this session and the
    -- traces, unless the deletion fails.
    pub close_session_cases :
        ((e : CloseError) × (closing.result ≡ err e) × (closing.db ≡ db) × (closing.written ≡ none))
        ⊎ ((meta : String → Option String) × (raws : List Bytes) × (ts : List T) × (b.hgetall
                (meta_key id)
                db
              ≡ some meta)
            × (b.lrange (traces_key id) db ≡ some raws)
            × (map decode raws ≡ map some ts)
            × (get_turns f decode quality_score b p ch id db ≡ some ts)
            × (write_to f decode quality_score ch (meta_of f decode quality_score p id meta ts)
                ≡ ok closing.written)
            × (closing.db ≡ (b.del (meta_key id) (traces_key id) db).0)
            × (closing.result ≡ elim (b.del (meta_key id) (traces_key id) db).1 [
              | none ↦ err CloseError.undeleted
              | some done ↦ ok (meta_of f decode quality_score p id meta ts, ts)
            ]))
    unfolding close_session store_session get_turns
    close_session_cases = elim (Option-cases (b.hgetall (meta_key id) db)) [
      | inl unread ↦ inl (CloseError.meta_unread, ground arith, ground arith, ground arith)
      | inr (meta, read) ↦ elim (Option-cases (b.lrange (traces_key id) db)) [
        | inl unread ↦ inl (CloseError.traces_unread, ground arith, ground arith, ground arith)
        | inr (raws, listed) ↦ elim (Option-cases (decode_all f decode quality_score raws)) [
          | inl bad ↦ inl (CloseError.bad_trace, ground arith, ground arith, ground arith)
          | inr (ts, decoded) ↦
              let m : SessionMeta f = meta_of f decode quality_score p id meta ts in
              elim (Result-cases (write_to f decode quality_score ch m)) [
                | inl (e, refused) ↦ inl (e, ground arith, ground arith, ground arith)
                | inr (written, taken) ↦
                    elim (Option-cases (b.del (meta_key id) (traces_key id) db).1) [
                      | inl kept ↦ inr (
                        meta,
                        raws,
                        ts,
                        read,
                        listed,
                        map-decode_all raws ts decoded,
                        ground (arith, turns_of-decode_all raws ts decoded),
                        ground arith,
                        ground arith,
                        ground arith,
                      )
                      | inr (done, gone) ↦ inr (
                        meta,
                        raws,
                        ts,
                        read,
                        listed,
                        map-decode_all raws ts decoded,
                        ground (arith, turns_of-decode_all raws ts decoded),
                        ground arith,
                        ground arith,
                        ground arith,
                      )
                    ]
              ]
        ]
      ]
    ]
