-- ===== src/Receive/Replies/Codes.antt =====
-- What a download writes (cmd/fmsgd/host.go): nothing, or one code for each recipient here.
use fmsgd.Prelude.{
  ◌≡◌, refl, sym, ◌∙◌, ℕ, ◌+◌, Bool, true, false, not, ◌&&◌, List, [], ◌∷◌, ◌++◌, append-nil,
  Option, none, some, length, Bytes, if◌then◌else◌, ◌==◌, arith, Bool-cases, inl, inr, ltb,
  bytes_eq,
}
use fmsgd.Prelude.Options.{Gives, some-Gives, map-Gives}
use fmsgd.Conn.{
  Conn, Error, not_in_recipients, hash_failed, hash_mismatch, open_failed, recipient_failed,
  lookup_failed, parent_data_unavailable, attachment_mismatch, temp_failed, Outcome, ok, err,
  panicked, M, fail, ◌>>=◌, then_with,
}
use fmsgd.Wire.{Address, AttachmentHeader, Header}
use fmsgd.Wire.Hash.{get_message_hash}
use fmsgd.Receive.{Config}
use fmsgd.Receive.Version.{write_bytes}
use fmsgd.Receive.Host.{Host, or_fail}
use fmsgd.Receive.Answers.{Replied, Answers, pure-Answers, fail-Answers, if-Answers, bind-Answers}
use fmsgd.Receive.Delivery.{local_recipients}
use fmsgd.Receive.Payload.{
  Created, with_created, copy_n, map_paths, map_parent, use_parent_data, read_attachments,
  read_data, prepare_message_data, canonical_msg_hash,
}
use fmsgd.Receive.Download.{
  Inbox, Progress, local_outcome, store_accepted_message, check_challenge, deliver_to,
  download_message,
}
use fmsgd.Receive.Download.Codes.{recipient_loop-codes, store_accepted_message-codes}

abbrev nothing : Error → Bytes
nothing e = []

-- What has been sent by the end of a run that sends `n` bytes when it succeeds.
abbrev pub Counted {ℓ} : {A : Type ℓ} → ℕ → Bytes → Outcome A → Type 0
Counted n sent (ok a d) = (codes : Bytes) × (d.sent ≡ sent ++ codes) × (length codes ≡ n)
Counted n sent (err e d) = d.sent ≡ sent
Counted n sent (panicked d) = d.sent ≡ sent

pub record Sends {ℓ} {A : Type ℓ} (n : ℕ) (m : M A) : Type ℓ where
  pub sends : (c : Conn) → c.writable ≡ true → Counted n c.sent (m c)

module _ {ℓ κ} {A : Type ℓ} {B : Type κ} {n : ℕ} where
  then_with-Counted :
      (o : Outcome A) (f : A → M B) (sent : Bytes)
      → Replied nothing sent o
      → ((a : A) → Sends n (f a))
      → Counted n sent (then_with o f)
  then_with-Counted (ok a d) f sent r af = rw (← r.0) ((af a).sends d r.1)
  then_with-Counted (err e d) f sent r af = r.0 ∙ append-nil sent
  then_with-Counted (panicked d) f sent r af = r

  bind-Sends :
      {m : M A} {f : A → M B} → Answers nothing m → ((a : A) → Sends n (f a)) → Sends n (m >>= f)
  bind-Sends {m = m} {f = f} am af = record {
    sends = λ c w. then_with-Counted (m c) f c.sent (am.replies c w) af;
  }

or_fail-Silent : {A : Type 0} (e : Error) (o : Option A) → Answers nothing (or_fail e o)
or_fail-Silent e none = fail-Answers e refl
or_fail-Silent e (some a) = pure-Answers a

copy_n-Silent : (n : ℕ) → Answers nothing (copy_n n)
unfolding copy_n
copy_n-Silent n = record {
  replies = λ c w. elim (Bool-cases (ltb (length c.input) n)) [
    | inl e ↦ rw e (sym (append-nil c.sent), w)
    | inr e ↦ rw e (refl, w)
  ];
}

map_paths-Silent : (xs ys : List AttachmentHeader) → Answers nothing (map_paths xs ys)
unfolding map_paths
map_paths-Silent [] ys = pure-Answers []
map_paths-Silent (a ∷ as_) [] = pure-Answers (a ∷ as_)
map_paths-Silent (a ∷ as_) (p ∷ ps) =
    if-Answers (length p.filepath == 0) (fail-Answers parent_data_unavailable refl)
      (bind-Answers (map_paths-Silent as_ ps) (λ rest. pure-Answers _))

map_parent-Silent : (h : Header) (p : Option Header) → Answers nothing (map_parent h p)
unfolding map_parent
map_parent-Silent h none = fail-Answers parent_data_unavailable refl
map_parent-Silent h (some parent) =
    if-Answers (length parent.filepath == 0) (fail-Answers parent_data_unavailable refl) (
      if-Answers (not (length parent.attachments == length h.attachments))
        (fail-Answers attachment_mismatch refl)
        (bind-Answers (map_paths-Silent h.attachments parent.attachments) (λ as_. pure-Answers _)))

use_parent_data-Silent : (host : Host) (h : Header) → Answers nothing (use_parent_data host h)
unfolding use_parent_data
use_parent_data-Silent host h =
    bind-Answers (or_fail-Silent lookup_failed (host.msg_id_by_hash h.pid)) (λ id.
      if-Answers (id == 0) (fail-Answers parent_data_unavailable refl)
        (bind-Answers (or_fail-Silent lookup_failed (host.msg_by_id id)) (map_parent-Silent h)))

module _ (create_temp : ℕ → Option Bytes) where
  read_attachments-Silent :
      (i : ℕ) (as_ : List AttachmentHeader) (created : Created)
      → Answers nothing (read_attachments create_temp i as_ created)
  unfolding read_attachments
  read_attachments-Silent i [] created = pure-Answers ([], created)
  read_attachments-Silent i (a ∷ as_) created =
      bind-Answers (or_fail-Silent temp_failed (create_temp i)) (λ path.
        bind-Answers (copy_n-Silent a.size) (λ content.
          bind-Answers (read_attachments-Silent (i + 1) as_ ((path, content) ∷ created))
            (λ rest. pure-Answers _)))

  read_data-Silent : (h : Header) → Answers nothing (read_data create_temp h)
  unfolding read_data
  read_data-Silent h = bind-Answers (or_fail-Silent temp_failed (create_temp 0)) (λ path.
      bind-Answers (copy_n-Silent h.size) (λ content.
        bind-Answers (read_attachments-Silent 1 h.attachments ((path, content) ∷ []))
          (λ rest. pure-Answers _)))

  prepare_message_data-Silent :
      (host : Host) (h : Header) (skip_data : Bool)
      → Answers nothing (prepare_message_data create_temp host h skip_data)
  unfolding prepare_message_data
  prepare_message_data-Silent host h skip_data =
      if-Answers skip_data (bind-Answers (use_parent_data-Silent host h) (λ mapped. pure-Answers _))
        (read_data-Silent h)

write_bytes-Sends : (n : ℕ) (bs : Bytes) → length bs ≡ n → Sends n (write_bytes bs)
unfolding write_bytes
write_bytes-Sends n bs e = record { sends = λ c w. rw w (bs, refl, e) }

module _ (inbox : Inbox) (cfg : Config) (host : Host) where
  check_challenge-Silent :
      (h : Header) (msg_hash : Bytes) → Answers nothing (check_challenge inbox cfg host h msg_hash)
  unfolding check_challenge
  check_challenge-Silent h msg_hash =
      if-Answers (h.challenge_completed && not (bytes_eq h.challenge_hash msg_hash))
        (fail-Answers hash_mismatch refl) (pure-Answers tt)

  loop_result-Sends :
      (n : ℕ) (addrs : List Address) (o : Option Progress)
      → Gives (λ p. length p.codes ≡ n) o
      → Sends n (
          or_fail recipient_failed o >>= λ p.
          write_bytes
            (store_accepted_message inbox p (local_outcome inbox cfg.unicode addrs p.codes [])).0)
  loop_result-Sends n addrs none g = record { sends = λ c w. refl }
  loop_result-Sends n addrs (some p) g = record {
    sends =
        (write_bytes-Sends n _ (
          store_accepted_message-codes inbox p (local_outcome inbox cfg.unicode addrs p.codes [])
          ∙ g.given p refl)).sends;
  }

  deliver_to-Sends :
      (addrs : List Address) (num_to : ℕ) (h : Header) (dup_hash : Bytes)
      → Sends (length addrs) (deliver_to inbox cfg host addrs num_to h dup_hash)
  unfolding deliver_to
  deliver_to-Sends addrs num_to h dup_hash = loop_result-Sends (length addrs) addrs _ (
      map-Gives (λ p e. omega (arith, e))
        (recipient_loop-codes inbox dup_hash num_to addrs 0 _ (some-Gives refl)))

  guarded-Sends :
      (n : ℕ) (b : Bool) (e : Error) (m : M (Unit {0}))
      → Sends n m
      → Sends n (if b then fail e else m)
  guarded-Sends n true e m s = record { sends = λ c w. refl }
  guarded-Sends n false e m s = s

  -- A download that succeeds has sent one code for each recipient here; any other has sent nothing.
  pub download_message-Sends :
      (h : Header) (skip_data : Bool)
      → Sends (length (local_recipients cfg h).0) (download_message inbox cfg host h skip_data)
  unfolding download_message
  download_message-Sends h skip_data =
      let (addrs, num_to) = local_recipients cfg h in
      guarded-Sends _ (length addrs == 0) not_in_recipients _ (
        bind-Sends (prepare_message_data-Silent inbox.create_temp host h skip_data)
          (λ (prepared, created).
            let fs = with_created created host.files in
            bind-Sends (or_fail-Silent hash_failed (get_message_hash fs prepared))
              (λ (hashed, msg_hash). bind-Sends (check_challenge-Silent hashed msg_hash) (λ checked.
                bind-Sends (or_fail-Silent hash_failed (canonical_msg_hash fs hashed))
                  (λ (kept, dup_hash).
                    bind-Sends (or_fail-Silent open_failed (fs.content kept.filepath))
                      (λ content. deliver_to-Sends addrs num_to kept dup_hash))))))
