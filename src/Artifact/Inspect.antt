-- ===== src/Artifact/Inspect.antt =====
-- The inspection of a candidate in artifact.go: `boundedBuffer`, that keeps the first bytes of what is
-- written to it, and `inspectManifest`, that runs the candidate and decodes what it prints.
use connectorhost.Common.{
  ℕ, zero, suc, ◌-◌, ◌≤◌, ◌≡◌, refl, ◌∙◌, ap, sym, subst, Bool, true, false, not, Option, none,
  some, List, [], ◌∷◌, ◌++◌, arith, ltb, length, take, append_assoc, length-append, length-take,
  if◌then◌else◌, Result, ok, err, ◌>>◌, guard, Bool-cases, inl, inr, manifest_too_large,
  bad_manifest, rejected,
}
use connectorhost.Protocol.{Protocol}

abbrev pub Bytes : Type 0
Bytes = List ℕ

-- boundedBuffer
pub record BoundedBuffer : Type 0 where
  pub buffer : Bytes
  pub limit : ℕ
  pub overflow : Bool

-- Write, which says that it took all of the bytes
unfoldable pub write : BoundedBuffer → Bytes → BoundedBuffer × ℕ
write b value =
    let remaining = b.limit - length b.buffer in
    if ltb remaining (length value)
    then (record b { buffer = b.buffer ++ take remaining value; overflow = true }, length value)
    else (record b { buffer = b.buffer ++ value }, length value)

-- The copy of a pipe to the buffer, in whatever pieces it comes.
unfoldable pub write_all : BoundedBuffer → List Bytes → BoundedBuffer
unfolding write
write_all b [] = b
write_all b (piece ∷ pieces) = write_all (write b piece).0 pieces

abbrev pub bounded : ℕ → BoundedBuffer
bounded limit = record { buffer = []; limit = limit; overflow = false }

unfoldable pub joined : List Bytes → Bytes
joined [] = []
joined (piece ∷ pieces) = piece ++ joined pieces

-- How a run of the candidate with the argument "manifest" goes: whether it is started in its
-- container; whether the time is up first; how it exits; and what it prints.
pub record Run : Type 0 where
  pub started : Result (Unit {0})
  pub in_time : Result (Unit {0})
  pub exited : Result (Unit {0})
  pub stdout : List Bytes
  pub stderr : List Bytes

-- `decode` is the strict decoder of a manifest, with nothing but space behind it; `limit` is
-- `protocol.MaxManifestBytes`.
module _ (p : Protocol) (limit : ℕ) (decode : Bytes → Option p.Manifest) where
  open p use {Manifest}

  unfoldable pub checked_manifest : Option Manifest → Result Manifest
  checked_manifest none = err bad_manifest
  checked_manifest (some m) = if p.valid_manifest m then ok m else err rejected

  -- inspectManifest
  unfoldable pub inspect_manifest : Run → Result Manifest
  unfolding write_all checked_manifest
  inspect_manifest r = do
    r.started
    r.in_time
    r.exited
    guard (not (write_all (bounded limit) r.stdout).overflow) manifest_too_large
    guard (not (write_all (bounded 65536) r.stderr).overflow) manifest_too_large
    checked_manifest (decode (write_all (bounded limit) r.stdout).buffer)

none_left : (m : ℕ) → 0 - suc m ≡ 0
none_left m = omega arith

all_left : (n : ℕ) → n - 0 ≡ n
all_left n = omega arith

both_less : (n m : ℕ) → suc n - suc m ≡ n - m
both_less n m = omega arith

module _ {A : Type 0} where
  take-nil : (n : ℕ) → take {A = A} n [] ≡ []
  take-nil zero = refl
  take-nil (suc n) = refl

  pub take_all : (n : ℕ) (xs : List A) → length xs ≤ n → take n xs ≡ xs
  take_all n [] h = take-nil n
  take_all zero (x ∷ xs) h = absurd (omega (arith, h))
  take_all (suc n) (x ∷ xs) h = ap (λ (r : List A). x ∷ r) (take_all n xs (omega (arith, h)))

  take-append : (n : ℕ) (xs ys : List A) → take n (xs ++ ys) ≡ take n xs ++ take (n - length xs) ys
  take-append zero [] ys = refl
  take-append zero (x ∷ xs) ys = rw (none_left (length xs)) refl
  take-append (suc n) [] ys = rw (all_left (suc n)) refl
  take-append (suc n) (x ∷ xs) ys =
      rw (both_less n (length xs)) (ap (λ (r : List A). x ∷ r) (take-append n xs ys))

  append-nil : (xs : List A) → xs ++ [] ≡ xs
  append-nil [] = refl
  append-nil (x ∷ xs) = ap (λ (r : List A). x ∷ r) (append-nil xs)

-- What a buffer holds after `bytes` were written to it: no more than its limit, and whether there was
-- more.
pub record Holds (limit : ℕ) (bytes : Bytes) (b : BoundedBuffer) : Type 0 where
  pub same_limit : b.limit ≡ limit
  pub kept : b.buffer ≡ take limit bytes
  pub cut : b.overflow ≡ ltb limit (length bytes)

kept_length :
    (limit : ℕ) (bytes : Bytes) (b : BoundedBuffer)
    → Holds limit bytes b
    → b.limit - length b.buffer ≡ limit - length bytes
kept_length limit bytes b h = rw (h.same_limit, h.kept, length-take limit bytes) (omega arith)

write-Holds :
    (limit : ℕ) (bytes value : Bytes) (b : BoundedBuffer)
    → Holds limit bytes b
    → Holds limit (bytes ++ value) (write b value).0
unfolding write
write-Holds limit bytes value b h = elim (Bool-cases (ltb (limit - length bytes) (length value))) [
  | inl e ↦
      rw (kept_length limit bytes b h, e)
        (record {
          same_limit = h.same_limit;
          kept = rw (h.kept) (sym (take-append limit bytes value));
          cut = ground (arith, e, length-append bytes value);
        })
  | inr e ↦
      rw (kept_length limit bytes b h, e)
        (record {
          same_limit = h.same_limit;
          kept =
              ap (λ (x : Bytes). b.buffer ++ x)
                (sym (take_all (limit - length bytes) value (ground (arith, e))))
              ∙ rw (h.kept) (sym (take-append limit bytes value));
          cut = rw (h.cut) (ground (arith, e, length-append bytes value));
        })
]

write_all-Holds :
    (limit : ℕ) (bytes : Bytes) (pieces : List Bytes) (b : BoundedBuffer)
    → Holds limit bytes b
    → Holds limit (bytes ++ joined pieces) (write_all b pieces)
unfolding write_all joined
write_all-Holds limit bytes [] b h =
    subst (λ (x : Bytes). Holds limit x b) (sym (append-nil bytes)) h
write_all-Holds limit bytes (piece ∷ pieces) b h =
    subst (λ (x : Bytes). Holds limit x (write_all (write b piece).0 pieces))
      (append_assoc bytes piece (joined pieces))
      (write_all-Holds limit (bytes ++ piece) pieces (write b piece).0
        (write-Holds limit bytes piece b h))

-- In whatever pieces an output comes, the buffer holds its first bytes up to the limit, and reports an
-- overflow exactly when there were more.
pub write_all-bounded :
    (limit : ℕ) (pieces : List Bytes)
    → Holds limit (joined pieces) (write_all (bounded limit) pieces)
write_all-bounded limit pieces =
    write_all-Holds limit [] pieces (bounded limit)
      (record { same_limit = refl; kept = sym (take-nil limit); cut = ground arith })
