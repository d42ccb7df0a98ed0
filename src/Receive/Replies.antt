-- ===== src/Receive/Replies.antt =====
-- What a peer reads on a connection that it sends a message on (cmd/fmsgd/host.go).
mod Codes
mod Challenge
use fmsgd.Prelude.{
  ◌≡◌, refl, sym, ap, ◌∙◌, ◌≢◌, ℕ, ◌⊎◌, inl, inr, Bool, true, false, not, ◌&&◌, List, [], ◌∷◌, ◌++◌,
  append_assoc, Option, none, some, length, Bytes, if◌then◌else◌, ◌==◌, Bool-cases,
}
use fmsgd.Conn.{
  Conn, Error, eof, read_failed, write_failed, Outcome, ok, err, panicked, M, send_code,
}
use fmsgd.Wire.{Header}
use fmsgd.Receive.{
  Config, accept_code_add_to, reject_code_duplicate, accept_code_skip_data, accept_code_continue,
  reject_code_undisclosed,
}
use fmsgd.Receive.Version.{answer}
use fmsgd.Receive.Admit.{read_header}
use fmsgd.Receive.Delivery.{local_recipients, should_challenge, resolve_post_challenge_code}
use fmsgd.Receive.Answers.{codes_of, Replied}
use fmsgd.Receive.Answers.Checks.{read_header-Replied}
use fmsgd.Receive.Download.{download_message}
use fmsgd.Receive.Serve.{
  Closing, closed_in_order, aborted, recovered, Server, closed_without_data, challenge, closed_with,
  end_with, end_of_download, accept_with, respond_with, dup_hash, on_duplicates, check_duplicates,
  after_challenge, on_challenge_mode, after_header, handle_conn,
}
use mathlib.Core.Path.{subst}
use fmsgd.Prelude.Options.{Gives, some-Gives, map-Gives}
use fmsgd.Receive.Replies.Challenge.{challenge-Gives}
use fmsgd.Receive.Replies.Codes.{Counted, download_message-Sends}

-- The codes that end a connection, and those that a download follows.
abbrev Final : ℕ → Type 0
Final code = (code ≡ 3) ⊎ ((code ≡ 10) ⊎ (code ≡ 11))

abbrev Accepting : ℕ → Type 0
Accepting code = (code ≡ 64) ⊎ (code ≡ 65)

-- The answers to a header that has been read: nothing; one final code; or 64 or 65, and behind it
-- nothing or `n` codes.
pub data IsAnswer (n : ℕ) (sent : Bytes) : Type 0 where
  silent : sent ≡ [] → IsAnswer n sent
  final : (code : ℕ) → Final code → sent ≡ code ∷ [] → IsAnswer n sent
  broken_off : (code : ℕ) → Accepting code → sent ≡ code ∷ [] → IsAnswer n sent
  answered :
      (code : ℕ) (codes : Bytes)
      → Accepting code
      → length codes ≡ n
      → sent ≡ code ∷ codes
      → IsAnswer n sent

-- The replies to the bytes of a connection: nothing; the code of the error that the header is
-- refused with; or the answer to the header, with a code for each of its recipients here.
pub data IsReply (s : Server) (c : Conn) (sent : Bytes) : Type 0 where
  no_reply : sent ≡ [] → IsReply s c sent
  refused :
      (e : Error) (d : Conn)
      → read_header s.cfg s.host s.fuel s.outgoing c ≡ err e d
      → sent ≡ codes_of e
      → IsReply s c sent
  replied :
      (h : Header) (d : Conn)
      → read_header s.cfg s.host s.fuel s.outgoing c ≡ ok (some h) d
      → IsAnswer (length (local_recipients s.cfg h).0) sent
      → IsReply s c sent

-- A code written to a connection that nothing has been sent on.
abbrev First : ℕ → Outcome (Unit {0}) → Type 0
First code (ok x d) = (d.sent ≡ code ∷ []) × (d.writable ≡ true)
First code (err e d) = d.sent ≡ []
First code (panicked d) = d.sent ≡ []

send_code-First :
    (code : ℕ) (c : Conn) → c.sent ≡ [] → c.writable ≡ true → First code (send_code code c)
unfolding send_code
send_code-First code c e w = rw w (ap (λ x. x ++ code ∷ []) e, refl)

-- The connection after a test, for a predicate of what has been sent.
if-sent :
    (P : Bytes → Type 0) (b : Bool) (x y : Conn × Closing)
    → P x.0.sent
    → P y.0.sent
    → P (if b then x else y).0.sent
if-sent P true x y px py = px
if-sent P false x y px py = py

module _ (s : Server) (n : ℕ) where
  download-IsAnswer :
      (code : ℕ) (sent : Bytes) (o : Outcome (Unit {0}))
      → Accepting code
      → sent ≡ code ∷ []
      → Counted n sent o
      → IsAnswer n (end_of_download s o).0.sent
  unfolding end_of_download
  download-IsAnswer code sent (ok x c) accepting e (codes, k, l) =
      answered code codes accepting l (k ∙ ap (λ x. x ++ codes) e)
  download-IsAnswer code sent (err x c) accepting e r = broken_off code accepting (r ∙ e)
  download-IsAnswer code sent (panicked c) accepting e r = broken_off code accepting (r ∙ e)

  accept_with-IsAnswer :
      (code : ℕ) (skip_data : Bool) (h : Header) (o : Outcome (Unit {0}))
      → length (local_recipients s.cfg h).0 ≡ n
      → Accepting code
      → First code o
      → IsAnswer n (accept_with s code skip_data h o).0.sent
  unfolding accept_with
  accept_with-IsAnswer code skip_data h (ok x d) k accepting (e, w) =
      download-IsAnswer code d.sent _ accepting e (
        subst (λ l. Counted l d.sent (download_message s.inbox s.cfg s.host h skip_data d)) k
          ((download_message-Sends s.inbox s.cfg s.host h skip_data).sends d w))
  accept_with-IsAnswer code skip_data h (err x d) k accepting e = silent e
  accept_with-IsAnswer code skip_data h (panicked d) k accepting e = silent e

  ending-IsAnswer :
      (code : ℕ) (closing : Closing) (o : Outcome (Unit {0}))
      → Final code
      → First code o
      → IsAnswer n (closed_with closing o).0.sent
  unfolding closed_with
  ending-IsAnswer code closing (ok x d) ends f = final code ends f.0
  ending-IsAnswer code closing (err x d) ends e = silent e
  ending-IsAnswer code closing (panicked d) ends e = silent e

  end_with-IsAnswer :
      (code : ℕ) (closing : Closing) (c : Conn)
      → Final code
      → c.sent ≡ []
      → c.writable ≡ true
      → IsAnswer n (end_with code closing c).0.sent
  unfolding end_with
  end_with-IsAnswer code closing c ends e w =
      ending-IsAnswer code closing (send_code code c) ends (send_code-First code c e w)

  respond_with-IsAnswer :
      (code : ℕ) (h : Header) (c : Conn)
      → length (local_recipients s.cfg h).0 ≡ n
      → c.sent ≡ []
      → c.writable ≡ true
      → IsAnswer n (respond_with s code h c).0.sent
  unfolding respond_with
  respond_with-IsAnswer code h c k e w =
      if-sent (IsAnswer n) (code == accept_code_add_to) _ _
        (if-sent (IsAnswer n) (s.store_header_only h) _ _
          (end_with-IsAnswer accept_code_add_to aborted c (inr (inr refl)) e w)
          (end_with-IsAnswer reject_code_undisclosed aborted c (inl refl) e w))
        (if-sent (IsAnswer n) (code == reject_code_duplicate) _ _
          (end_with-IsAnswer reject_code_duplicate closed_in_order c (inr (inl refl)) e w)
          (if-sent (IsAnswer n) (code == accept_code_skip_data) _ _
            (accept_with-IsAnswer accept_code_skip_data true h (send_code accept_code_skip_data c) k
              (inr refl) (send_code-First accept_code_skip_data c e w))
            (accept_with-IsAnswer accept_code_continue false h (send_code accept_code_continue c) k
              (inl refl) (send_code-First accept_code_continue c e w))))

  on_duplicates-IsAnswer :
      (h : Header) (c : Conn) (all_dup : Option Bool)
      → length (local_recipients s.cfg h).0 ≡ n
      → c.sent ≡ []
      → c.writable ≡ true
      → IsAnswer n (on_duplicates s h c all_dup).0.sent
  unfolding on_duplicates
  on_duplicates-IsAnswer h c none k e w =
      end_with-IsAnswer reject_code_undisclosed aborted c (inl refl) e w
  on_duplicates-IsAnswer h c (some b) k e w =
      respond_with-IsAnswer
        (resolve_post_challenge_code h.initial_response_code h.challenge_completed b) h c k e w

  after_challenge-IsAnswer :
      (c : Conn) (h : Option Header)
      → Gives (λ g. length (local_recipients s.cfg g).0 ≡ n) h
      → c.sent ≡ []
      → c.writable ≡ true
      → IsAnswer n (after_challenge s c h).0.sent
  unfolding after_challenge
  after_challenge-IsAnswer c none g e w = silent e
  after_challenge-IsAnswer c (some h) g e w =
      on_duplicates-IsAnswer h c (check_duplicates s h) (g.given h refl) e w

  on_challenge_mode-IsAnswer :
      (h : Header) (c : Conn) (b : Option Bool)
      → length (local_recipients s.cfg h).0 ≡ n
      → c.sent ≡ []
      → c.writable ≡ true
      → IsAnswer n (on_challenge_mode s h c b).0.sent
  unfolding on_challenge_mode
  on_challenge_mode-IsAnswer h c none k e w = silent e
  on_challenge_mode-IsAnswer h c (some true) k e w =
      after_challenge-IsAnswer c (challenge s h)
        (map-Gives (λ g same. ap (λ x. length x.0) same ∙ k) (challenge-Gives s h)) e w
  on_challenge_mode-IsAnswer h c (some false) k e w =
      after_challenge-IsAnswer c (some h) (some-Gives k) e w

module _ (s : Server) where
  after_header-IsReply :
      (first : Conn) (sent : Bytes) (o : Outcome (Option Header))
      → read_header s.cfg s.host s.fuel s.outgoing first ≡ o
      → sent ≡ []
      → Replied codes_of sent o
      → IsReply s first (after_header s first o).0.sent
  unfolding after_header
  after_header-IsReply first sent (ok none c) r z (e, w) = no_reply (e ∙ z)
  after_header-IsReply first sent (ok (some h) c) r z (e, w) = replied h c r (
      on_challenge_mode-IsAnswer s (length (local_recipients s.cfg h).0) h c
        (should_challenge s.mode s.participated s.cfg.domain h) refl (e ∙ z) w)
  after_header-IsReply first sent (err x c) r z (e, w) =
      let q : IsReply s first c.sent = refused x c r (e ∙ ap (λ y. y ++ codes_of x) z) in
      if-sent (IsReply s first) (closed_without_data first x) _ _ q
        (if-sent (IsReply s first) (length c.sent == 0) _ _ q q)
  after_header-IsReply first sent (panicked c) r z e = no_reply (e ∙ z)

  -- On a connection that can be written to, and where the peer asks no challenge of ours, the bytes
  -- that it reads are a reply of the protocol, whatever it sends: nothing; the code of the error
  -- that its header is refused with, at most one; or, behind a header that is read, nothing, one of
  -- the final codes 3, 10 and 11, or 64 or 65 with behind it nothing or exactly one code for each
  -- recipient of the header at this host.
  pub handle_conn-IsReply :
      ((hash : Bytes) (bs : Bytes) → s.outgoing hash ≢ answer bs)
      → (c : Conn) → c.sent ≡ []
      → c.writable ≡ true
      → IsReply s c (handle_conn s c).0.sent
  unfolding handle_conn
  handle_conn-IsReply none_ours c e w =
      after_header-IsReply c c.sent _ refl e
        (read_header-Replied s.outgoing none_ours s.cfg s.host s.fuel c w)
