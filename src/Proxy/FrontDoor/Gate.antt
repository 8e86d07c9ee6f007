-- ===== src/Proxy/FrontDoor/Gate.antt =====
-- What the guards of the front door let through.
use qfn_pgx.Base.{
  ℕ, ◌+◌, ◌-◌, ◌≤◌, ◌≡◌, refl, arith, ltb, true, false, some, String, String_eq, ℕ_eq, List_eq,
  ◌==◌, [], ◌∷◌, length, ap, Bool-cases, inl, inr, if◌then◌else◌,
}
use qfn_pgx.Base.Bytes.{Text}
use qfn_pgx.Proxy.Registry.{Registry}
use qfn_pgx.Proxy.FrontDoor.{
  Settings, ClientRequest, Engine, Codec, refused, is_anthropic, target_of, limit_reader,
}
use qfn_pgx.Proxy.FrontDoor.Chat.{Wire, serve_chat}
use qfn_pgx.Proxy.FrontDoor.Messages.{serve_messages}
use qfn_pgx.Proxy.FrontDoor.Serve.{take_body, serve_http}

length-limit_reader :
    (n : ℕ) (s : Text) → length (limit_reader n s) ≡ (if ltb (length s) n then length s else n)
unfolding limit_reader
length-limit_reader n [] = ground arith
length-limit_reader n (c ∷ s) = ground (arith, length-limit_reader (n - 1) s)

limit_reader_short : (n : ℕ) (s : Text) → length s ≤ n → limit_reader n s ≡ s
unfolding limit_reader
limit_reader_short n [] h = refl
limit_reader_short n (c ∷ s) h =
    let positive : (n == 0) ≡ false = ground (arith, h) in
    rw positive (ap (λ t. c ∷ t) (limit_reader_short (n - 1) s (omega (arith, h))))

module _ {V : Type 0} (C : Codec V) (W : Wire) (E : Engine) (st : Settings V) (msg_id : String)
    (now : ℕ) (rg : Registry) (r : ClientRequest) where
  -- A body is never clipped: one that is longer than the limit is refused and nothing is asked of the
  -- engine, and any other is served whole, by the protocol of its path.
  pub limit_exact :
      (sent : Text)
      → (target_of st == []) ≡ false
      → r.body ≡ some sent
      → serve_http C W E st msg_id now rg r ≡ (
          if ltb st.max_req_body (length sent)
          then record { registry = rg; calls = []; reply = refused 413 "request_too_large" }
          else if is_anthropic r.path
          then serve_messages C W E st msg_id now rg r sent
          else serve_chat C W E st now rg r sent)
  unfolding serve_http take_body
  limit_exact sent t b =
      rw (t, b)
        (elim (Bool-cases (ltb st.max_req_body (length sent))) [
          | inl p ↦
              let long : ltb st.max_req_body (length (limit_reader (st.max_req_body + 1) sent))
                  ≡ true =
                ground (arith, p, length-limit_reader (st.max_req_body + 1) sent) in
              rw (long, p) refl
          | inr p ↦
              let whole : limit_reader (st.max_req_body + 1) sent ≡ sent =
                limit_reader_short (st.max_req_body + 1) sent (ground (arith, p)) in
              rw (whole, p) refl
        ])
