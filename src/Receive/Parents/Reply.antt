-- ===== src/Receive/Parents/Reply.antt =====
-- When `validatePidReplyPath` (cmd/fmsgd/host.go) lets a reply pass.
use fmsgd.Prelude.{
  ℕ, ◌≡◌, ◌↔◌, refl, ap, ◌∙◌, true, false, not, Option, none, some, arith, ◌==◌, if◌then◌else◌,
  length, [],
}
use fmsgd.Conn.{lookup_failed, Conn, ok, then_with-eq-ok}
use fmsgd.Wire.{Header, has, flag_terminal, flag_has_pid}
use fmsgd.Receive.{Config}
use fmsgd.Receive.Host.{Host, or_fail, is_message_retrievable, is_parent_participant}
use fmsgd.Receive.Parents.{or_panic, is_time_travel, check_reply, validate_pid_reply_path}
use fmsgd.Receive.Parents.Steps.{reject-ne-ok, if-reject-ok, or_fail-ok, or_panic-ok}

module _ (cfg : Config) (host : Host) (fuel : ℕ) where
  -- What a reply must find of its parent, which its pid names: a message, or else a batch.
  pub record IsReplyTo (h parent : Header) : Type 0 where
    pub id : ℕ
    pub named : host.msg_id_by_hash h.pid ≡ some id
    pub found :
        (if id == 0 then host.msg_by_batch_hash h.pid else host.msg_by_id id) ≡ some (some parent)
    pub retrievable : is_message_retrievable host fuel (some parent) ≡ some true
    pub in_time : is_time_travel cfg host fuel parent h ≡ false
    pub participant : is_parent_participant cfg.unicode parent h.from ≡ true
    pub leaf : has parent.flags flag_terminal ≡ false

  check_reply_sound :
      (p : Option Header) (h : Header) (c d : Conn)
      → check_reply cfg host fuel p h c ≡ ok tt d
      → (c ≡ d)
        × ((parent : Header) × (p ≡ some parent)
            × (is_message_retrievable host fuel (some parent) ≡ some true)
            × (is_time_travel cfg host fuel parent h ≡ false)
            × (is_parent_participant cfg.unicode parent h.from ≡ true)
            × (has parent.flags flag_terminal ≡ false))
  unfolding check_reply
  check_reply_sound none h c d e = absurd (reject-ne-ok _ _ c d tt e)
  check_reply_sound (some parent) h c d e =
      let (found, c', run, e') =
        then_with-eq-ok (or_panic (is_message_retrievable host fuel (some parent)) c) _ e in
      let (kept, same) =
        or_panic-ok (is_message_retrievable host fuel (some parent)) c c' found run in
      let (f1, e1) = if-reject-ok (not found) _ _ _ c' d tt e' in
      let (f2, e2) = if-reject-ok (is_time_travel cfg host fuel parent h) _ _ _ c' d tt e1 in
      let (f3, e3) =
        if-reject-ok (not (is_parent_participant cfg.unicode parent h.from)) _ _ _ c' d tt e2 in
      let (f4, e4) = if-reject-ok (has parent.flags flag_terminal) _ _ _ c' d tt e3 in
      let yes : found ≡ true = ground arith in
      let last : c' ≡ d = cc in
      (same ∙ last, (parent, refl, kept ∙ ap some yes, f2, ground arith, f4))

  check_reply_complete :
      (parent h : Header) (c : Conn)
      → is_message_retrievable host fuel (some parent) ≡ some true
      → is_time_travel cfg host fuel parent h ≡ false
      → is_parent_participant cfg.unicode parent h.from ≡ true
      → has parent.flags flag_terminal ≡ false
      → check_reply cfg host fuel (some parent) h c ≡ ok tt c
  unfolding check_reply
  check_reply_complete parent h c kept in_time participant leaf =
      rw (kept, in_time, participant, leaf)

  -- A message without recipients added and with a pid passes exactly when its parent is stored and
  -- retrievable, not ahead of it in time, not terminal, and has its sender as a participant. The
  -- connection is then as it was.
  pub validate_pid_reply_path_iff :
      (h : Header) (c d : Conn)
      → h.add_to ≡ []
      → has h.flags flag_has_pid ≡ true
      → (validate_pid_reply_path cfg host fuel h c ≡ ok tt d)
        ↔ ((c ≡ d) × ((parent : Header) × IsReplyTo h parent))
  unfolding validate_pid_reply_path
  validate_pid_reply_path_iff h c d plain pid =
      let empty : (length h.add_to == 0) ≡ true = rw plain refl in
      (
        λ e.
            let e0 = rw (empty, pid) at e in
            let (id, c1, run1, e1) =
              then_with-eq-ok (or_fail lookup_failed (host.msg_id_by_hash h.pid) c) _ e0 in
            let (named, same1) =
              or_fail-ok lookup_failed (host.msg_id_by_hash h.pid) c c1 id run1 in
            let at : Option (Option Header) =
              if id == 0 then host.msg_by_batch_hash h.pid else host.msg_by_id id in
            let (p, c2, run2, e2) = then_with-eq-ok (or_fail lookup_failed at c1) _ e1 in
            let (looked, same2) = or_fail-ok lookup_failed at c1 c2 p run2 in
            let (same3, (parent, is, kept, in_time, participant, leaf)) =
              check_reply_sound p h c2 d e2 in
            (
              same1 ∙ same2 ∙ same3,
              (
                parent,
                record {
                  id = id;
                  named = named;
                  found = looked ∙ ap some is;
                  retrievable = kept;
                  in_time = in_time;
                  participant = participant;
                  leaf = leaf;
                },
              ),
            ),
        λ (same, (parent, r)).
            rw (empty, pid, r.named, r.found)
              (check_reply_complete parent h c r.retrievable r.in_time r.participant r.leaf
                ∙ ap (ok tt) same),
      )
