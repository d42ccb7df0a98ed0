-- ===== src/Receive/Parents/AddTo.antt =====
-- When `handleAddToPath` (cmd/fmsgd/host.go) lets a message that adds recipients pass.
use fmsgd.Prelude.{
  ℕ, ◌≡◌, refl, ◌⊎◌, ap, ◌∙◌, Bool, true, false, not, ◌||◌, Bool-cases, inl, inr, Option, none,
  some, arith, ◌==◌, if◌then◌else◌, length, Bytes,
}
use fmsgd.Conn.{lookup_failed, hash_failed, Conn, ok, pure, then_with-eq-ok}
use fmsgd.Wire.{Header, has, flag_terminal}
use fmsgd.Wire.Hash.{get_message_hash}
use fmsgd.Receive.{
  Config, has_domain_recipient, accept_code_add_to, accept_code_skip_data, accept_code_continue,
}
use fmsgd.Receive.Host.{Host, or_fail, is_message_retrievable, is_original_participant}
use fmsgd.Receive.Parents.{
  or_panic, handle_add_to_parent_not_stored, with_payload_of, is_time_travel, record_batch,
  check_parent, on_parent, handle_add_to_path,
}
use fmsgd.Receive.Parents.Steps.{reject-ne-ok, if-reject-ok, or_fail-ok, or_panic-ok}

module _ (cfg : Config) (host : Host) (fuel : ℕ) where
  -- Whether the host has a recipient among those added.
  abbrev pub adds_local : Header → Bool
  adds_local h = has_domain_recipient cfg.unicode h.add_to cfg.domain

  -- A batch on a parent that this host holds: `id` and `parent` are what the pid names, `result` is
  -- the header that `handleAddToPath` gives.
  pub record IsBatch (h result : Header) : Type 0 where
    pub id : ℕ
    pub named : host.msg_id_by_hash h.pid ≡ some id
    pub parent : Header
    pub found : host.msg_by_id id ≡ some (some parent)
    pub retrievable : is_message_retrievable host fuel (some parent) ≡ some true
    pub leaf : has parent.flags flag_terminal ≡ false
    pub in_time : is_time_travel cfg host fuel parent h ≡ false
    pub participant : is_original_participant cfg.unicode parent h.add_to_from ≡ true
    pub hashed : Header
    pub digest : Bytes
    pub digested : get_message_hash host.files (with_payload_of parent h) ≡ some (hashed, digest)
    pub fresh : host.batch_recorded id digest ≡ some false
    pub answered : result ≡ record hashed {
      initial_response_code = if adds_local h then accept_code_skip_data else accept_code_add_to;
    }

  -- A batch taken as a whole message, for lack of the parent: a recipient here is needed.
  pub record IsWhole (h result : Header) : Type 0 where
    pub here : (adds_local h || has_domain_recipient cfg.unicode h.to cfg.domain) ≡ true
    pub answered : result ≡ record h { initial_response_code = accept_code_continue }

  not_stored_sound :
      (h result : Header) (local : Bool) (c d : Conn)
      → handle_add_to_parent_not_stored h local c ≡ ok result d
      → (c ≡ d)
        × (local ≡ true)
        × (result ≡ record h { initial_response_code = accept_code_continue })
  unfolding handle_add_to_parent_not_stored
  not_stored_sound h result true c d e = (cc, refl, cc)
  not_stored_sound h result false c d e = absurd (reject-ne-ok _ _ c d result e)

  answered_with : Header → Bool → Header
  answered_with hashed ours = record hashed {
    initial_response_code = if ours then accept_code_skip_data else accept_code_add_to;
  }

  answer-ok :
      (hashed result : Header) (ours : Bool) (c d : Conn)
      → (if ours
            then pure (record hashed { initial_response_code = accept_code_skip_data })
            else pure (record hashed { initial_response_code = accept_code_add_to }))
          c
        ≡ ok result d
      → (c ≡ d) × (result ≡ answered_with hashed ours)
  unfolding answered_with
  answer-ok hashed result true c d e = (cc, cc)
  answer-ok hashed result false c d e = (cc, cc)

  record_batch_sound :
      (id : ℕ) (h result : Header) (ours : Bool) (c d : Conn)
      → record_batch cfg host fuel id h ours c ≡ ok result d
      → (c ≡ d)
        × ((hashed : Header) × (digest : Bytes) × (get_message_hash host.files h
              ≡ some (hashed, digest))
            × (host.batch_recorded id digest ≡ some false)
            × (result ≡ answered_with hashed ours))
  unfolding record_batch answered_with
  record_batch_sound id h result ours c d e =
      let ((hashed, digest), c1, run1, e1) =
        then_with-eq-ok (or_fail hash_failed (get_message_hash host.files h) c) _ e in
      let (digested, same1) = or_fail-ok hash_failed (get_message_hash host.files h) c c1 _ run1 in
      let (recorded, c2, run2, e2) =
        then_with-eq-ok (or_fail lookup_failed (host.batch_recorded id digest) c1) _ e1 in
      let (looked, same2) =
        or_fail-ok lookup_failed (host.batch_recorded id digest) c1 c2 recorded run2 in
      let (fresh, e3) = if-reject-ok recorded _ _ _ c2 d result e2 in
      let (last, answered) = answer-ok hashed result ours c2 d e3 in
      (same1 ∙ same2 ∙ last, (hashed, digest, digested, looked ∙ ap some fresh, answered))

  -- All the checks on a stored parent.
  check_parent_sound :
      (id : ℕ) (parent h result : Header) (c d : Conn)
      → host.msg_id_by_hash h.pid ≡ some id
      → host.msg_by_id id ≡ some (some parent)
      → is_message_retrievable host fuel (some parent) ≡ some true
      → check_parent cfg host fuel id parent h (adds_local h) c ≡ ok result d
      → (c ≡ d) × IsBatch h result
  unfolding check_parent answered_with
  check_parent_sound id parent h result c d named found kept e =
      let (f1, e1) = if-reject-ok (has parent.flags flag_terminal) _ _ _ c d result e in
      let (f2, e2) = if-reject-ok (is_time_travel cfg host fuel parent h) _ _ _ c d result e1 in
      let (f3, e3) =
        if-reject-ok (not (is_original_participant cfg.unicode parent h.add_to_from)) _ _ _ c d
          result e2 in
      let (same, (hashed, digest, digested, fresh, answered)) =
        record_batch_sound id (with_payload_of parent h) result (adds_local h) c d e3 in
      (
        same,
        record {
          id = id;
          named = named;
          parent = parent;
          found = found;
          retrievable = kept;
          leaf = f1;
          in_time = f2;
          participant = ground arith;
          hashed = hashed;
          digest = digest;
          digested = digested;
          fresh = fresh;
          answered = answered;
        },
      )

  whole :
      (h result : Header) (c d : Conn)
      → handle_add_to_parent_not_stored h
          (adds_local h || has_domain_recipient cfg.unicode h.to cfg.domain)
          c
        ≡ ok result d
      → (c ≡ d) × (IsBatch h result ⊎ IsWhole h result)
  whole h result c d e =
      let (same, here, answered) = not_stored_sound h result _ c d e in
      (same, inr (record { here = here; answered = answered }))

  on_parent_sound :
      (id : ℕ) (p : Option Header) (kept : Bool) (h result : Header) (c d : Conn)
      → host.msg_id_by_hash h.pid ≡ some id
      → host.msg_by_id id ≡ some p
      → is_message_retrievable host fuel p ≡ some kept
      → on_parent cfg host fuel id p kept h
          (adds_local h)
          (adds_local h || has_domain_recipient cfg.unicode h.to cfg.domain)
          c
        ≡ ok result d
      → (c ≡ d) × (IsBatch h result ⊎ IsWhole h result)
  unfolding on_parent
  on_parent_sound id none kept h result c d named found is e = whole h result c d e
  on_parent_sound id (some parent) false h result c d named found is e = whole h result c d e
  on_parent_sound id (some parent) true h result c d named found is e =
      let (same, batch) = check_parent_sound id parent h result c d named found is e in
      (same, inl batch)

  -- A message that adds recipients passes only as a batch on a parent that this host holds, added
  -- by an original participant to a message that is not terminal, not ahead of it in time and not
  -- recorded with the same hash before; or, with a recipient here, as a whole message. In both
  -- cases the header gets the response code that goes with it, and nothing is sent.
  pub handle_add_to_path_sound :
      (h result : Header) (c d : Conn)
      → (length h.add_to == 0) ≡ false
      → handle_add_to_path cfg host fuel h c ≡ ok result d
      → (c ≡ d) × (IsBatch h result ⊎ IsWhole h result)
  unfolding handle_add_to_path
  handle_add_to_path_sound h result c d adding e =
      let e0 = rw adding at e in
      let (id, c1, run1, e1) =
        then_with-eq-ok (or_fail lookup_failed (host.msg_id_by_hash h.pid) c) _ e0 in
      let (named, same1) = or_fail-ok lookup_failed (host.msg_id_by_hash h.pid) c c1 id run1 in
      elim (Bool-cases (id == 0)) [
        | inl f ↦ let e2 = rw f at e1 in let (same, r) = whole h result c1 d e2 in (same1 ∙ same, r)
        | inr f ↦
            let e2 = rw f at e1 in
            let (p, c2, run2, e3) =
              then_with-eq-ok (or_fail lookup_failed (host.msg_by_id id) c1) _ e2 in
            let (found, same2) = or_fail-ok lookup_failed (host.msg_by_id id) c1 c2 p run2 in
            let (kept, c3, run3, e4) =
              then_with-eq-ok (or_panic (is_message_retrievable host fuel p) c2) _ e3 in
            let (is, same3) = or_panic-ok (is_message_retrievable host fuel p) c2 c3 kept run3 in
            let (same, r) = on_parent_sound id p kept h result c3 d named found is e4 in
            (same1 ∙ same2 ∙ same3 ∙ same, r)
      ]
