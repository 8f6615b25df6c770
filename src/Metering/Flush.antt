-- ===== src/Metering/Flush.antt =====
-- `flush` writes the events in order, and what it does not write stays.
use verisearch.Prelude.{
  ℕ, suc, Bool, true, false, List, [], ◌∷◌, length, take, drop, if_property, ◌≡◌, refl, ap,
}
use verisearch.Metering.Buffer.{Buffer, drain, flush}

module _ {E D : Type 0} (execute : E → D → Bool × D) where
  -- The database after the insertion of the events, each of which succeeds.
  pub data Writes : List E → D → D → Type 0 where
    no_more : {db : D} → Writes [] db db
    one_more :
        {e : E} {es : List E} {db end : D}
        → (execute e db).0 ≡ true
        → Writes es (execute e db).1 end
        → Writes (e ∷ es) db end

  -- How a loop over `es` ends: all are written, or the first that is not written was refused.
  pub data Ends : List E → D → D → Type 0 where
    drained : {db : D} → Ends [] db db
    refused :
        {e : E} {es : List E} {db : D}
        → (execute e db).0 ≡ false
        → Ends (e ∷ es) db (execute e db).1

  -- The first `n` events are written in order, and the rest stays.
  pub record Flushed (es : List E) (db : D) (n : ℕ) (stay : List E) (end : D) : Type 0 where
    pub middle : D
    pub count : length (take n es) ≡ n
    pub written : Writes (take n es) db middle
    pub stays : stay ≡ drop n es
    pub ended : Ends stay middle end

  abbrev Drains : List E → D → ℕ × List E × D → Type 0
  Drains es db out = Flushed es db out.0 out.1 out.2

  drain-Flushed : (es : List E) (db : D) → Drains es db (drain execute es db)
  unfolding drain
  drain-Flushed [] db = record {
    middle = db;
    count = refl;
    written = no_more;
    stays = refl;
    ended = drained;
  }
  drain-Flushed (e ∷ es) db =
      let rest = drain execute es (execute e db).1 in
      let r : Drains es (execute e db).1 rest = drain-Flushed es (execute e db).1 in
      if_property (Drains (e ∷ es) db) (execute e db).0 (suc rest.0, rest.1, rest.2)
        (0, e ∷ es, (execute e db).1)
        (λ went. record {
          middle = r.middle;
          count = ap suc r.count;
          written = one_more went r.written;
          stays = r.stays;
          ended = r.ended;
        })
        (λ failed. record {
          middle = db;
          count = refl;
          written = no_more;
          stays = refl;
          ended = refused failed;
        })

  -- `flush` writes the first n events in order, n being what it returns, each successfully, and keeps
  -- the others in order; it ends with an empty buffer or at the first event that the database refuses.
  pub flush-Flushed :
      (b : Buffer E) (db : D)
      → Flushed b.events db
          (flush execute b db).0
          (flush execute b db).1.events
          (flush execute b db).2
  unfolding flush
  flush-Flushed b db = drain-Flushed b.events db
