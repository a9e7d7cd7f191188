-- ===== src/Dns/Resolver.antt =====
-- src/net-modules/dns.c: `resolve` and its `callback`, over the calls of the asynchronous resolver
-- library and of the C library's address functions as a parameter.
use mathlib.Core.Option
use freenote_probe.Base.{
  ℕ, Bool, true, false, Option, none, some, List, [], ◌∷◌, ◌==◌, if◌then◌else◌, ◌≡◌, refl, ap,
}
use freenote_probe.CString.{Bytes, codes}
use freenote_probe.Task.Types.{inaddr_none}
use freenote_probe.Clock.{Timeval, time_difference}
use freenote_probe.Dns.{Found}

-- What reaches `callback`: a status other than ARES_SUCCESS, or the first address of the host.
pub data Reply : Type 0 where
  failed : Reply
  host : ℕ → Reply

-- One round of the loop: the number of open descriptors, and what ares_process hands to `callback`.
pub record Round : Type 0 where
  pub nfds : ℕ
  pub answer : Option Reply

-- The calls of the two libraries. A query goes to the address of a server; `at_once` is what
-- ares_gethostbyname hands to `callback` before it returns.
pub record Ares : Type 0 where
  pub starts : Bool
  pub default_server : ℕ
  pub inet_addr : Bytes → ℕ
  pub inet_ntoa : ℕ → Bytes
  pub at_once : ℕ → Bytes → Option Reply
  pub rounds : ℕ → Bytes → List Round

-- The initial content of the buffer that `callback` writes to.
abbrev pub dashes : Bytes
dashes = codes "---------------"

-- ip[0] == '-'
unfoldable pub unanswered : Bytes → Bool
unanswered [] = false
unanswered (c ∷ s) = c == b'-'

module _ (ares : Ares) where
  unfoldable pub callback : Reply → Bytes
  callback failed = codes "255.255.255.255"
  callback (host a) = ares.inet_ntoa a

  unfoldable pub heard : Bytes → Option Reply → Bytes
  unfolding callback
  heard ip none = ip
  heard ip (some a) = callback a

  -- The loop, which is still waiting where the rounds run out: `none`.
  unfoldable pub wait : Bytes → List Round → Option Bytes
  unfolding heard unanswered
  wait ip [] = if unanswered ip then none else some ip
  wait ip (r ∷ rs) =
      let rest = wait (heard ip r.answer) rs in
      if unanswered ip then (if r.nfds == 0 then some ip else rest) else some ip

  -- A nameserver that is not an address leaves the library's own server in place.
  unfoldable pub server : Option Bytes → ℕ
  server none = ares.default_server
  server (some ip) =
      if ares.inet_addr ip == inaddr_none then ares.default_server else ares.inet_addr ip

  -- `start` and `now` are the readings of the clock before and after the query.
  unfoldable pub resolve : Bytes → Option Bytes → Option Timeval → Timeval → Timeval → Option Found
  unfolding heard wait server
  resolve name nameserver_ip time start now =
      let to = server nameserver_ip in
      if ares.starts
      then Option.map
          (λ ip. record {
            addr = ares.inet_addr ip;
            time = Option.map (λ t. time_difference start now) time;
          })
          (wait (heard dashes (ares.at_once to name)) (ares.rounds to name))
      else some (record { addr = inaddr_none; time = time })

-- What a query comes to: the answer that arrives in some round, or no answer before the library has
-- no open descriptor left.
pub data Hears : Option Reply → List Round → Option Reply → Type 0 where
  arrived : {a : Reply} {rs : List Round} → Hears (some a) rs (some a)
  closed : {r : Round} {rs : List Round} → (r.nfds == 0) ≡ true → Hears none (r ∷ rs) none
  next_round :
      {r : Round} {rs : List Round} {o : Option Reply}
      → (r.nfds == 0) ≡ false
      → Hears r.answer rs o
      → Hears none (r ∷ rs) o

abbrev pub address : Option Reply → ℕ
address none = inaddr_none
address (some failed) = inaddr_none
address (some (host a)) = a

-- What `resolve` relies on of the address functions, for one answer: an address that is printed is
-- read back and is no dash, and neither the dashes nor the broadcast address are an address.
pub record Addresses (ares : Ares) (o : Option Reply) : Type 0 where
  pub read_back : (a : ℕ) → o ≡ some (host a) → ares.inet_addr (ares.inet_ntoa a) ≡ a
  pub no_dash : (a : ℕ) → o ≡ some (host a) → unanswered (ares.inet_ntoa a) ≡ false
  pub invalid : ares.inet_addr dashes ≡ inaddr_none
  pub broadcast : ares.inet_addr (codes "255.255.255.255") ≡ inaddr_none

module _ (ares : Ares) where
  reply_unanswered : (a : Reply) → Addresses ares (some a) → unanswered (callback ares a) ≡ false
  unfolding callback unanswered
  reply_unanswered failed h = refl
  reply_unanswered (host a) h = h.no_dash a refl

  wait_answered : (ip : Bytes) (rs : List Round) → unanswered ip ≡ false → wait ares ip rs ≡ some ip
  unfolding wait
  wait_answered ip [] h = rw h
  wait_answered ip (r ∷ rs) h = rw h

  wait-Hears :
      (now : Option Reply) (rs : List Round) (o : Option Reply)
      → Hears now rs o
      → Addresses ares o
      → wait ares (heard ares dashes now) rs ≡ some (heard ares dashes o)
  unfolding wait unanswered heard
  wait-Hears _ rs _ (arrived {a}) h = wait_answered (callback ares a) rs (reply_unanswered a h)
  wait-Hears _ _ _ (closed e) h = rw e
  wait-Hears _ _ o (next_round {r} {rs} e more) h = rw e (wait-Hears r.answer rs o more h)

  heard-address :
      (o : Option Reply) → Addresses ares o → ares.inet_addr (heard ares dashes o) ≡ address o
  unfolding heard callback
  heard-address none h = h.invalid
  heard-address (some failed) h = h.broadcast
  heard-address (some (host a)) h = h.read_back a refl

  -- If the library starts and the address functions read back what they print, a query whose answer
  -- arrives, at once or after any number of rounds, is resolved to the address of the answer, and to
  -- INADDR_NONE if the answer is an error or the library closes without one. The time that is stored
  -- is the difference of the two clock readings.
  pub resolve-Hears :
      (name : Bytes) (ns : Option Bytes) (time : Option Timeval) (start now : Timeval)
      (o : Option Reply)
      → ares.starts ≡ true
      → Hears (ares.at_once (server ares ns) name) (ares.rounds (server ares ns) name) o
      → Addresses ares o
      → resolve ares name ns time start now
        ≡ some
            (record { addr = address o; time = Option.map (λ t. time_difference start now) time })
  unfolding resolve
  resolve-Hears name ns time start now o up h known =
      rw (up, wait-Hears _ _ o h known) (ap some (rw (heard-address o known)))
