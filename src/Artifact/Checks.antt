-- ===== src/Artifact/Checks.antt =====
-- What the checks of a candidate and the move of its file give.
use connectorhost.Common.{
  ◌+◌, ◌≤◌, ◌≡◌, ◌≢◌, refl, sym, ap, ◌∙◌, String, true, false, not, ◌||◌, Option, some, [], ◌∷◌,
  arith, eq_iff, length, ◌==◌, nat_eq, string_eq, ok, ok-eq, some-eq, eq_refl, guard-eq-ok,
  >>-eq-ok,
}
use connectorhost.Dict.{Dict, lookup, insert, lookup-insert_self, lookup-insert_ne, lookup_cons}
use connectorhost.Protocol.{Protocol}
use connectorhost.Record.{ConnectorRecord}
use connectorhost.Store.{WriteOutcome, written, failed, replaced_with_error}
use connectorhost.Artifact.Inspect.{Bytes, take_all}
use connectorhost.Artifact.{
  System, File, Directory, max_artifact_bytes, listed, in_directory, digest_of,
  verify_artifact_file, reuse, reusable_artifact, mentions, Steps, Candidate, staged_bytes,
  check_candidate_file, move_file, moved_record, validate_manifest_target,
}

module _ (p : Protocol) (sys : System p.Manifest) where
  open p use {Manifest}

  -- What the checks before the move have found.
  pub record Checked (c : Candidate p sys) (m : Manifest) : Type 0 where
    pub sized : length (staged_bytes p sys c) ≡ c.size
    pub expected :
        (c.expected_digest == "" || digest_of sys (staged_bytes p sys c) == c.expected_digest)
        ≡ true
    pub declared : p.artifact_digest m ≡ digest_of sys (staged_bytes p sys c)
    pub targets : mentions sys.host_target (p.targets m) ≡ true

  pub check-Checked :
      (s : Steps p sys) (c : Candidate p sys) (m : Manifest)
      → check_candidate_file p sys s c ≡ ok m
      → Checked c m
  unfolding check_candidate_file validate_manifest_target
  check-Checked s c m h =
      ground (arith, eq_iff (p.artifact_digest m) (digest_of sys (staged_bytes p sys c)))

  -- The directories and the record after a candidate was staged: the record names a file that has its
  -- digest and can be executed, the digest is that of the bytes of the candidate, of which there are as
  -- many as was declared, it is the one that was expected, if one was, the manifest agrees with it and
  -- names the host's target, it is a record of the candidate's installation without a rollback slot, and
  -- no other digest's directory has changed.
  pub record IsStaged (c : Candidate p sys) (before after : Dict Directory)
      (r : ConnectorRecord Manifest) : Type 0 where
    pub verified :
        verify_artifact_file sys
          (lookup r.filename (in_directory r.active_digest after))
          r.active_digest
        ≡ ok tt
    pub digest : r.active_digest ≡ digest_of sys (staged_bytes p sys c)
    pub sized : length (staged_bytes p sys c) ≡ c.size
    pub expected : (c.expected_digest == "" || r.active_digest == c.expected_digest) ≡ true
    pub declared : p.artifact_digest r.manifest ≡ r.active_digest
    pub targets : mentions sys.host_target (p.targets r.manifest) ≡ true
    pub identity : r.installation_id ≡ c.installation_id
    pub no_previous : r.previous_digest ≡ ""
    pub others : (j : String) → r.active_digest ≢ j → lookup j after ≡ lookup j before

  reuse-eq :
      (f : File) (n name digest : String)
      → reuse sys f n digest ≡ ok (some name)
      → (n ≡ name) × (verify_artifact_file sys (some f) digest ≡ ok tt)
  unfolding reuse
  reuse-eq f n name digest h =
      let (_, rest) = guard-eq-ok (not f.is_directory) _ _ h in
      let (good, last) = >>-eq-ok (verify_artifact_file sys (some f) digest) _ rest in
      (some-eq (ok-eq last), good)

  pub reused-verified :
      (d : Directory) (digest name : String)
      → reusable_artifact sys d digest ≡ ok (some name)
      → verify_artifact_file sys (lookup name d) digest ≡ ok tt
  unfolding reusable_artifact
  reused-verified [] digest name h = absurd (cc (h))
  reused-verified ((n, f) ∷ []) digest name h =
      let (same, good) = reuse-eq f n name digest h in
      rw (lookup_cons n name f [], sym same, eq_refl n) good
  reused-verified (_ ∷ _ ∷ _) digest name h = absurd (cc (h))

  new_file-verified :
      (bytes : Bytes)
      → 1 ≤ length bytes
      → length bytes ≤ max_artifact_bytes
      → verify_artifact_file sys
          (some
            (record { regular = true; is_directory = false; executable = true; content = bytes }))
          (digest_of sys bytes)
        ≡ ok tt
  unfolding verify_artifact_file
  new_file-verified bytes l u =
      rw (take_all (max_artifact_bytes + 1) bytes (omega (arith, u)))
        (ground (arith, l, u, eq_iff (digest_of sys bytes) (digest_of sys bytes)))

  in_directory-insert :
      (digest : String) (d : Directory) (artifacts : Dict Directory)
      → in_directory digest (insert digest d artifacts) ≡ d
  unfolding in_directory
  in_directory-insert digest d artifacts = ap listed (lookup-insert_self digest d artifacts)

  pub moved-verified :
      (artifacts : Dict Directory) (c : Candidate p sys) (w : WriteOutcome)
      → 1 ≤ length (staged_bytes p sys c)
      → length (staged_bytes p sys c) ≤ max_artifact_bytes
      → (r r' : ConnectorRecord Manifest) → moved_record p sys w r ≡ ok r'
      → let digest = digest_of sys (staged_bytes p sys c) in
        (r ≡ r')
        × (verify_artifact_file sys
              (lookup c.filename (in_directory digest (move_file p sys artifacts c digest w)))
              digest
            ≡ ok tt)
  unfolding moved_record move_file
  moved-verified artifacts c written l u r r' h =
      let digest = digest_of sys (staged_bytes p sys c) in
      let found =
        ap (lookup c.filename) (in_directory-insert digest _ artifacts)
        ∙ lookup-insert_self c.filename _ (in_directory digest artifacts) in
      (
        cc,
        ap (λ (f : Option File). verify_artifact_file sys f digest) found
            ∙ new_file-verified (staged_bytes p sys c) l u,
      )
  moved-verified artifacts c failed l u r r' h = absurd (cc (h))
  moved-verified artifacts c replaced_with_error l u r r' h = absurd (cc (h))

  pub moved-others :
      (artifacts : Dict Directory) (c : Candidate p sys) (digest j : String) (w : WriteOutcome)
      → digest ≢ j
      → lookup j (move_file p sys artifacts c digest w) ≡ lookup j artifacts
  unfolding move_file
  moved-others artifacts c digest j written n = lookup-insert_ne digest j _ artifacts n
  moved-others artifacts c digest j failed n = refl
  moved-others artifacts c digest j replaced_with_error n = lookup-insert_ne digest j _ artifacts n
