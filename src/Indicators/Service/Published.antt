-- ===== src/Indicators/Service/Published.antt =====
-- What is published, and what is offered (cmd/fmsgd/indicators.go).
use fmsgd.Prelude.{
  ◌≡◌, ◌≢◌, ◌↔◌, ◌⊎◌, refl, sym, inl, inr, ℕ, true, false, List, Option, none, some, arith,
  get_elem?, Bytes,
}
use mathlib.Core.Path.{subst}
use fmsgd.Wire.{Address}
use fmsgd.Indicators.Datagram.{IndicatorDatagram, parse_indicator_datagram}
use fmsgd.Indicators.Service.{
  IndicatorNotice, Drop, dropped, published, Service, notice_of, is_among, check_source,
  with_sender, with_subject, with_datagram, verify_and_publish,
}
use fmsgd.Indicators.Service.Notice.{
  IsNotice, notice_of-IsNotice, IsNotice-notice_of, IsAddressOf, is_among-IsAddressOf,
  IsAddressOf-is_among,
}

-- A datagram that may be published as the given notice: its subject is held here, its index names a
-- participant of another host, and it comes from an address of that host.
pub record IsGenuine (s : Service) (b src : Bytes) (n : IndicatorNotice) : Type 0 where
  pub datagram : IndicatorDatagram
  pub id : ℕ
  pub participants : List Address
  pub from : Address
  pub is_parsed : parse_indicator_datagram s.is_rgi b ≡ some datagram
  pub is_found : s.subject_by_hash datagram.hash ≡ some (some (id, participants))
  pub is_indexed : get_elem? participants datagram.index ≡ some from
  pub is_remote : s.is_local from.domain ≡ false
  pub is_authorised : (s.skip_ip_check ≡ true) ⊎ IsAddressOf s src (s.resolve from.domain)
  pub is_notice : IsNotice id from datagram n

not_published : {d : Drop} {n : IndicatorNotice} → dropped d ≢ published n
not_published e = cc

module _ (s : Service) (b src : Bytes) (n : IndicatorNotice) where
  check_source-IsGenuine :
      (d : IndicatorDatagram) (id : ℕ) (parts : List Address) (from : Address)
      → parse_indicator_datagram s.is_rgi b ≡ some d
      → s.subject_by_hash d.hash ≡ some (some (id, parts))
      → get_elem? parts d.index ≡ some from
      → check_source s id d src from ≡ published n
      → IsGenuine s b src n
  unfolding check_source
  check_source-IsGenuine d id parts from p f g e =
      let same : n ≡ notice_of id from d = ground arith in
      record {
        datagram = d;
        id = id;
        participants = parts;
        from = from;
        is_parsed = p;
        is_found = f;
        is_indexed = g;
        is_remote = ground arith;
        is_authorised = authorised (ground arith);
        is_notice = subst (IsNotice id from d) (sym same) (notice_of-IsNotice id from d);
      }
    where
      authorised :
          (s.skip_ip_check ≡ true) ⊎ (is_among s src (s.resolve from.domain) ≡ true)
          → (s.skip_ip_check ≡ true) ⊎ IsAddressOf s src (s.resolve from.domain)
      authorised (inl e) = inl e
      authorised (inr e) = inr (is_among-IsAddressOf s src (s.resolve from.domain) e)

  with_sender-IsGenuine :
      (d : IndicatorDatagram) (id : ℕ) (parts : List Address) (o : Option Address)
      → parse_indicator_datagram s.is_rgi b ≡ some d
      → s.subject_by_hash d.hash ≡ some (some (id, parts))
      → get_elem? parts d.index ≡ o
      → with_sender s id d src o ≡ published n
      → IsGenuine s b src n
  unfolding with_sender
  with_sender-IsGenuine d id parts none p f g e = absurd (not_published e)
  with_sender-IsGenuine d id parts (some from) p f g e =
      check_source-IsGenuine d id parts from p f g e

  with_subject-IsGenuine :
      (d : IndicatorDatagram) (o : Option (Option (ℕ × List Address)))
      → parse_indicator_datagram s.is_rgi b ≡ some d
      → s.subject_by_hash d.hash ≡ o
      → with_subject s d src o ≡ published n
      → IsGenuine s b src n
  unfolding with_subject
  with_subject-IsGenuine d none p f e = absurd (not_published e)
  with_subject-IsGenuine d (some none) p f e = absurd (not_published e)
  with_subject-IsGenuine d (some (some (id, parts))) p f e =
      with_sender-IsGenuine d id parts (get_elem? parts d.index) p f refl e

  with_datagram-IsGenuine :
      (o : Option IndicatorDatagram)
      → parse_indicator_datagram s.is_rgi b ≡ o
      → with_datagram s src o ≡ published n
      → IsGenuine s b src n
  unfolding with_datagram
  with_datagram-IsGenuine none p e = absurd (not_published e)
  with_datagram-IsGenuine (some d) p e =
      with_subject-IsGenuine d (s.subject_by_hash d.hash) p refl e

  -- A datagram is published, as a notice, exactly when it is genuine: it parses, its subject is held
  -- here, its index names a participant of that subject who is not at this host, and its source is
  -- an address of the participant's host, unless the check is skipped. The notice has the subject's
  -- id and names the participant; it clears where the datagram has no text or no time, and else has
  -- its text, for its time or 120 seconds if that is less.
  pub verify_and_publish_iff : (verify_and_publish s b src ≡ published n) ↔ IsGenuine s b src n
  unfolding verify_and_publish with_datagram with_subject with_sender check_source
  verify_and_publish_iff = (
    λ e. with_datagram-IsGenuine (parse_indicator_datagram s.is_rgi b) refl e,
    λ g.
        rw
          (
            g.is_parsed,
            g.is_found,
            g.is_indexed,
            g.is_remote,
            IsNotice-notice_of g.id g.from g.datagram n g.is_notice,
          )
          (elim g.is_authorised [
            | inl e ↦ simp e refl
            | inr a ↦
                let e = IsAddressOf-is_among s src (s.resolve g.from.domain) a in
                simp e (ground arith)
          ]),
  )
