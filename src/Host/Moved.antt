-- ===== src/Host/Moved.antt =====
-- The records that the installs, the updates and the rollbacks switch to make the moves asked for.
use connectorhost.Common.{
  ◌≡◌, ◌≢◌, sym, ◌∙◌, subst, String, Bool, true, false, Option, none, some, arith, Result, ok,
  eq_iff, ◌==◌, string_eq,
}
use connectorhost.Record.{ConnectorRecord}
use connectorhost.Host.Installed.{Follows}
use connectorhost.Host.RolledBack.{RollsBack}
use connectorhost.Host.View.{
  Kind, installs, updates, rolls_back, Moves, arrives, is_replaced, is_exchanged, slots_of,
}

not_blank : (s : String) → (s == "") ≡ false → s ≢ ""
not_blank s e = ground (arith, eq_iff s "")

-- The kind of an install of an artifact, by whether it is an update
abbrev pub kind_of : Bool → String → Kind
kind_of true digest = updates digest
kind_of false digest = installs digest

module _ {M : Type 0} where
  given_digest :
      (id digest : String) (update : Bool) (staged : Result (ConnectorRecord M))
      (old : Option (ConnectorRecord M)) (r : ConnectorRecord M)
      → Follows id update staged old r
      → Moves (kind_of update digest) (slots_of old) (some (digest, r.previous_digest))
  unfolding slots_of
  given_digest id digest update staged none r k =
      subst (λ (u : Bool). Moves (kind_of u digest) none (some (digest, r.previous_digest)))
        k.was_there
        (subst (λ (s : String). Moves (installs digest) none (some (digest, s))) (sym k.previous)
          (arrives digest))
  given_digest id digest update staged (some o) r k =
      subst
        (λ (u : Bool).
          Moves (kind_of u digest) (some (o.active_digest, o.previous_digest))
            (some (digest, r.previous_digest)))
        k.was_there
        (subst
          (λ (s : String).
            Moves (updates digest) (some (o.active_digest, o.previous_digest)) (some (digest, s)))
          (sym k.previous) (is_replaced digest o.active_digest o.previous_digest))

  -- A candidate that has the digest asked for makes the move asked for.
  pub Follows-Moves :
      (id digest : String) (update : Bool) (staged : Result (ConnectorRecord M))
      (old : Option (ConnectorRecord M)) (r : ConnectorRecord M)
      → ((c : ConnectorRecord M) → staged ≡ ok c → c.active_digest ≡ digest)
      → Follows id update staged old r
      → Moves (kind_of update digest) (slots_of old) (some (r.active_digest, r.previous_digest))
  Follows-Moves id digest update staged old r d k =
      subst
        (λ (s : String). Moves (kind_of update digest) (slots_of old) (some (s, r.previous_digest)))
        (sym (k.active ∙ d k.candidate k.staged_as)) (given_digest id digest update staged old r k)

  pub RollsBack-Moves :
      (old : Option (ConnectorRecord M)) (r : ConnectorRecord M)
      → RollsBack old r
      → Moves rolls_back (slots_of old) (some (r.active_digest, r.previous_digest))
  unfolding slots_of
  RollsBack-Moves old r k =
      let o = k.before in
      subst (λ (s : String). Moves rolls_back (slots_of old) (some (s, r.previous_digest)))
        (sym k.active)
        (subst (λ (s : String). Moves rolls_back (slots_of old) (some (o.previous_digest, s)))
          (sym k.previous)
          (subst
            (λ (x : Option (ConnectorRecord M)).
              Moves rolls_back (slots_of x) (some (o.previous_digest, o.active_digest)))
            (sym k.was_there)
            (is_exchanged o.active_digest o.previous_digest
              (not_blank o.previous_digest k.had_one))))
