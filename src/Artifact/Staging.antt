-- ===== src/Artifact/Staging.antt =====
-- What holds of a candidate that was staged.
use connectorhost.Common.{
  ◌≤◌, ◌≡◌, refl, subst, String, eq_iff, ◌==◌, true, false, [], Bool-cases, inl, inr, >>-eq-ok,
  guard-eq-ok, Option, none, some, arith, nat_eq, string_eq, Result, ok, err, ok-eq,
}
use connectorhost.Dict.{Dict}
use connectorhost.Protocol.{Protocol}
use connectorhost.Record.{
  ConnectorRecord, validate_installation_id, validate_host_storage_origins,
  validate_artifact_filename,
}
use connectorhost.Artifact.{
  validate_expected_digest, System, Directory, max_artifact_bytes, in_directory, digest_of,
  reusable_artifact, Steps, Candidate, staged_bytes, check_candidate_file, staged_record, place,
  stage_checked, stage,
}
use connectorhost.Artifact.Inputs.{
  ConnectorArtifactInput, Response, LocalArtifactInput, Opened, check_input, remote_candidate,
  stage_answer, stage_remote, check_local, local_candidate, stage_opened, stage_local, bounded_size,
  check_response,
}
use connectorhost.Artifact.Checks.{
  Checked, check-Checked, IsStaged, reused-verified, moved-verified, moved-others,
}

module _ (p : Protocol) (sys : System p.Manifest) where
  open p use {Manifest}

  module _ (s : Steps p sys) (c : Candidate p sys) (l : 1 ≤ c.size)
      (u : c.size ≤ max_artifact_bytes) where
    place-IsStaged :
        (artifacts : Dict Directory) (m : Manifest) (found : Result (Option String))
        (r : ConnectorRecord Manifest)
        → Checked p sys c m
        → reusable_artifact sys
            (in_directory (digest_of sys (staged_bytes p sys c)) artifacts)
            (digest_of sys (staged_bytes p sys c))
          ≡ found
        → (place p sys artifacts s c m found).1 ≡ ok r
        → IsStaged p sys c artifacts (place p sys artifacts s c m found).0 r
    unfolding place
    place-IsStaged artifacts m (err e) r k f h = absurd (cc (h))
    place-IsStaged artifacts m (ok (some name)) r k f h =
        subst (IsStaged p sys c artifacts artifacts) (ok-eq h) (
          unfold staged_record in
          record {
            verified = reused-verified p sys _ _ name f;
            digest = refl;
            sized = k.sized;
            expected = k.expected;
            declared = k.declared;
            targets = k.targets;
            identity = refl;
            no_previous = refl;
            others = λ j n. refl;
          })
    place-IsStaged artifacts m (ok none) r k f h =
        let (same, good) =
          moved-verified p sys artifacts c s.moved (rw (k.sized) l) (rw (k.sized) u)
            (staged_record p sys s c m c.filename) r h in
        subst (IsStaged p sys c artifacts _) same (
          unfold staged_record in
          record {
            verified = good;
            digest = refl;
            sized = k.sized;
            expected = k.expected;
            declared = k.declared;
            targets = k.targets;
            identity = refl;
            no_previous = refl;
            others = λ j n. moved-others p sys artifacts c _ j s.moved n;
          })

    checked-IsStaged :
        (artifacts : Dict Directory) (m : Result Manifest) (r : ConnectorRecord Manifest)
        → check_candidate_file p sys s c ≡ m
        → (stage_checked p sys artifacts s c m).1 ≡ ok r
        → IsStaged p sys c artifacts (stage_checked p sys artifacts s c m).0 r
    unfolding stage_checked
    checked-IsStaged artifacts (err e) r k h = absurd (cc (h))
    checked-IsStaged artifacts (ok m) r k h =
        place-IsStaged artifacts m _ r (check-Checked p sys s c m k) refl h

    stage-IsStaged :
        (artifacts : Dict Directory) (r : ConnectorRecord Manifest)
        → (stage p sys artifacts s c).1 ≡ ok r
        → IsStaged p sys c artifacts (stage p sys artifacts s c).0 r
    unfolding stage
    stage-IsStaged artifacts r h =
        checked-IsStaged artifacts (check_candidate_file p sys s c) r refl h

  input-bounds :
      (input : ConnectorArtifactInput) (answered : Result Response) (r : Response)
      → check_input p sys input answered ≡ ok r
      → (answered ≡ ok r) × (1 ≤ input.size_bytes) × (input.size_bytes ≤ max_artifact_bytes)
  unfolding check_input bounded_size check_response
  input-bounds input (err e) r h = absurd (ground (arith, h))
  input-bounds input (ok a) r h = ground arith

  answer-IsStaged :
      (artifacts : Dict Directory) (s : Steps p sys) (input : ConnectorArtifactInput)
      (settings : String) (answered checked : Result Response) (r : ConnectorRecord Manifest)
      → check_input p sys input answered ≡ checked
      → (stage_answer p sys artifacts s input settings checked).1 ≡ ok r
      → (answer : Response) × (answered ≡ ok answer)
        × IsStaged p sys
            (remote_candidate p sys input settings answer)
            artifacts
            (stage_answer p sys artifacts s input settings checked).0
            r
  unfolding stage_answer
  answer-IsStaged artifacts s input settings answered (err e) r k h = absurd (cc (h))
  answer-IsStaged artifacts s input settings answered (ok a) r k h =
      let (same, l, u) = input-bounds input answered a k in
      let c = remote_candidate p sys input settings a in
      (
        a,
        same,
        stage-IsStaged s c (unfold remote_candidate in l) (unfold remote_candidate in u) artifacts r
            h,
      )

  answered-IsStaged :
      (artifacts : Dict Directory) (s : Steps p sys) (input : ConnectorArtifactInput)
      (settings : String) (answered : Result Response) (r : ConnectorRecord Manifest)
      → (stage_remote p sys artifacts s input settings answered).1 ≡ ok r
      → (answer : Response) × (answered ≡ ok answer)
        × IsStaged p sys
            (remote_candidate p sys input settings answer)
            artifacts
            (stage_remote p sys artifacts s input settings answered).0
            r
  unfolding stage_remote
  answered-IsStaged artifacts s input settings answered r h =
      answer-IsStaged artifacts s input settings answered (check_input p sys input answered) r refl
        h

  input-digest :
      (input : ConnectorArtifactInput) (answered : Result Response) (r : Response)
      → check_input p sys input answered ≡ ok r
      → validate_expected_digest sys input.sha256 false ≡ ok tt
  unfolding check_input
  input-digest input answered r h =
      let (_, h1) = >>-eq-ok (validate_installation_id input.installation_id) _ h in
      let (_, h2) = >>-eq-ok (validate_host_storage_origins p input.storage_origins) _ h1 in
      let (_, h3) = guard-eq-ok _ _ _ h2 in
      let (_, h4) = >>-eq-ok (validate_artifact_filename input.filename) _ h3 in
      (>>-eq-ok (validate_expected_digest sys input.sha256 false) _ h4).0

  digest_required :
      (digest : String)
      → sys.hex_decode "" ≡ some []
      → validate_expected_digest sys digest false ≡ ok tt
      → (digest == "") ≡ false
  unfolding validate_expected_digest
  digest_required digest hex h = elim (Bool-cases (digest == "")) [
    | inr e ↦ e
    | inl e ↦
        let blank : digest ≡ "" = (eq_iff digest "").0 e in
        absurd (ground (arith, rw blank at h, hex))
  ]

  checked-digest :
      (artifacts : Dict Directory) (s : Steps p sys) (input : ConnectorArtifactInput)
      (settings : String) (answered checked : Result Response) (r : ConnectorRecord Manifest)
      → check_input p sys input answered ≡ checked
      → (stage_answer p sys artifacts s input settings checked).1 ≡ ok r
      → validate_expected_digest sys input.sha256 false ≡ ok tt
  unfolding stage_answer
  checked-digest artifacts s input settings answered (err e) r k h = absurd (cc (h))
  checked-digest artifacts s input settings answered (ok a) r k h = input-digest input answered a k

  stage_remote-digest :
      (artifacts : Dict Directory) (s : Steps p sys) (input : ConnectorArtifactInput)
      (settings : String) (answered : Result Response) (r : ConnectorRecord Manifest)
      → (stage_remote p sys artifacts s input settings answered).1 ≡ ok r
      → validate_expected_digest sys input.sha256 false ≡ ok tt
  unfolding stage_remote
  stage_remote-digest artifacts s input settings answered r h =
      checked-digest artifacts s input settings answered (check_input p sys input answered) r refl h

  -- Stage, whatever the server and the system do, where the empty text decodes to no bytes as
  -- hexadecimal: when it reports success, the server has answered, what is staged from the answer is
  -- IsStaged p sys, and its digest is the one that was asked for, which cannot be left out.
  pub stage_remote-IsStaged :
      (artifacts : Dict Directory) (s : Steps p sys) (input : ConnectorArtifactInput)
      (settings : String) (answered : Result Response) (r : ConnectorRecord Manifest)
      → sys.hex_decode "" ≡ some []
      → (stage_remote p sys artifacts s input settings answered).1 ≡ ok r
      → (r.active_digest ≡ input.sha256)
        × (answer : Response) × (answered ≡ ok answer)
        × IsStaged p sys
            (remote_candidate p sys input settings answer)
            artifacts
            (stage_remote p sys artifacts s input settings answered).0
            r
  unfolding remote_candidate
  stage_remote-IsStaged artifacts s input settings answered r hex h =
      let (a, same, k) = answered-IsStaged artifacts s input settings answered r h in
      let given : (input.sha256 == "") ≡ false =
        digest_required input.sha256 hex
          (stage_remote-digest artifacts s input settings answered r h) in
      let equal : (r.active_digest == input.sha256) ≡ true = ground (arith, given, k.expected) in
      ((eq_iff r.active_digest input.sha256).0 equal, a, same, k)

  local-bounds :
      (input : LocalArtifactInput) (opened : Result Opened) (f : Opened)
      → check_local p sys input opened ≡ ok f
      → (opened ≡ ok f) × (1 ≤ f.size) × (f.size ≤ max_artifact_bytes)
  unfolding check_local bounded_size
  local-bounds input (err e) f h = absurd (ground (arith, h))
  local-bounds input (ok a) f h = ground arith

  opened-IsStaged :
      (artifacts : Dict Directory) (s : Steps p sys) (input : LocalArtifactInput)
      (opened checked : Result Opened) (r : ConnectorRecord Manifest)
      → check_local p sys input opened ≡ checked
      → (stage_opened p sys artifacts s input checked).1 ≡ ok r
      → (f : Opened) × (opened ≡ ok f)
        × IsStaged p sys
            (local_candidate p sys input f)
            artifacts
            (stage_opened p sys artifacts s input checked).0
            r
  unfolding stage_opened
  opened-IsStaged artifacts s input opened (err e) r k h = absurd (cc (h))
  opened-IsStaged artifacts s input opened (ok f) r k h =
      let (same, l, u) = local-bounds input opened f k in
      let c = local_candidate p sys input f in
      (
        f,
        same,
        stage-IsStaged s c (unfold local_candidate in l) (unfold local_candidate in u) artifacts r
            h,
      )

  -- StageLocal likewise, from the file that it has opened.
  pub stage_local-IsStaged :
      (artifacts : Dict Directory) (s : Steps p sys) (input : LocalArtifactInput)
      (opened : Result Opened) (r : ConnectorRecord Manifest)
      → (stage_local p sys artifacts s input opened).1 ≡ ok r
      → (f : Opened) × (opened ≡ ok f)
        × IsStaged p sys
            (local_candidate p sys input f)
            artifacts
            (stage_local p sys artifacts s input opened).0
            r
  unfolding stage_local
  stage_local-IsStaged artifacts s input opened r h =
      opened-IsStaged artifacts s input opened (check_local p sys input opened) r refl h

  -- A staged record is of the given installation and has no rollback slot.
  pub stage_remote_fresh :
      (artifacts : Dict Directory) (s : Steps p sys) (input : ConnectorArtifactInput)
      (settings : String) (answered : Result Response) (r : ConnectorRecord Manifest)
      → (stage_remote p sys artifacts s input settings answered).1 ≡ ok r
      → (r.installation_id ≡ input.installation_id) × (r.previous_digest ≡ "")
  unfolding remote_candidate
  stage_remote_fresh artifacts s input settings answered r h =
      let (a, same, k) = answered-IsStaged artifacts s input settings answered r h in
      (k.identity, k.no_previous)

  pub stage_local_fresh :
      (artifacts : Dict Directory) (s : Steps p sys) (input : LocalArtifactInput)
      (opened : Result Opened) (r : ConnectorRecord Manifest)
      → (stage_local p sys artifacts s input opened).1 ≡ ok r
      → (r.installation_id ≡ input.installation_id) × (r.previous_digest ≡ "")
  unfolding local_candidate
  stage_local_fresh artifacts s input opened r h =
      let (f, same, k) = stage_local-IsStaged artifacts s input opened r h in
      (k.identity, k.no_previous)
