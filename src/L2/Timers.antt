-- ===== src/L2/Timers.antt =====
-- ax25/l2/l2.go, `t1Expired`: T1 expires again and again.
use tncd.Prelude.{
  Bool, Option, ap, arith, false, none, refl, some, suc, sym, true, zero, ℕ, ◌+◌, ◌<◌, ◌∙◌, ◌≡◌,
  ◌≢◌, ◌≤◌,
}
use tncd.L2.Events.{t1_expired}
use tncd.L2.State.{ConnState, disconnected}
use tncd.L2.Links.{Link, link_params}
use tncd.L2.Retries.{GivenUp, IsRunning, Outcome, Retried, t1_expired-Outcome}

abbrev pub unless_gone : (Link → Link × Bool) → Link × Bool → Link × Bool
unless_gone next (m, true) = (m, true)
unless_gone next (m, false) = next m

-- T1 expires `n` times with nothing heard in between, or until the link is given up.
unfoldable pub timeouts : ℕ → Link → Link × Bool
timeouts zero l = (l, false)
timeouts (suc n) l = unless_gone (timeouts n) (t1_expired l)

abbrev pub retry_limit : Link → ℕ
retry_limit l = (link_params l).n2_retry

Retried-limit : {l m : Link} → Retried l m → retry_limit m ≡ retry_limit l
Retried-limit r = rw (r.table, r.port) refl

GivenUp-same :
    {s t : ConnState} {i j : ℕ} {m : Link} → s ≡ t → i ≡ j → GivenUp s i m → GivenUp t j m
GivenUp-same p q g = record { state = g.state; told = (g.told.0, rw (p, q) at g.told.1) }

unless_gone-GivenUp :
    (n : ℕ) (l : Link) (r : Link × Bool)
    → Outcome l.conn.state l r
    → retry_limit l < l.conn.t1_polls + suc n
    → ((m : Link)
        → m.conn.state ≡ l.conn.state
        → m.conn.t1_polls ≤ retry_limit m
        → retry_limit m < m.conn.t1_polls + n
        → ((timeouts n m).1 ≡ true) × GivenUp m.conn.state m.self (timeouts n m).0)
    → ((unless_gone (timeouts n) r).1 ≡ true)
      × GivenUp l.conn.state l.self (unless_gone (timeouts n) r).0
unfolding Outcome
unless_gone-GivenUp n l (m, true) (h, g) k ih = (refl, g)
unless_gone-GivenUp n l (m, false) (h, r) k ih =
    let given =
      ih m r.state (omega (arith, Retried-limit r, r.polls))
        (omega (arith, Retried-limit r, r.polls)) in
    (given.0, GivenUp-same r.state r.self given.1)

timeouts_end :
    (n : ℕ) (l : Link)
    → l.conn.state ≢ disconnected
    → l.conn.t1_polls ≤ retry_limit l
    → retry_limit l < l.conn.t1_polls + n
    → ((timeouts n l).1 ≡ true) × GivenUp l.conn.state l.self (timeouts n l).0
unfolding timeouts
timeouts_end zero l ne a b = absurd (omega arith)
timeouts_end (suc n) l ne a b =
    unless_gone-GivenUp n l (t1_expired l) (t1_expired-Outcome l ne) b
      (λ m f. timeouts_end n m (λ d. ne (sym f ∙ d)))

-- T1 expires only while it runs.
unfoldable pub t1_fires : Link → Option ℕ → Link × Bool
t1_fires l none = (l, false)
t1_fires l (some timer) = t1_expired l

-- The next `n` expiries of T1 with nothing heard in between, those of a T1 that nobody has started
-- again left out, or until the link is given up.
unfoldable pub expiries : ℕ → Link → Link × Bool
unfolding t1_fires
expiries zero l = (l, false)
expiries (suc n) l = unless_gone (expiries n) (t1_fires l l.conn.t1)

unless_gone-expiries :
    (n : ℕ) (s : ConnState) (l : Link) (r : Link × Bool)
    → Outcome s l r
    → ((m : Link) → m.conn.state ≡ l.conn.state → IsRunning m → expiries n m ≡ timeouts n m)
    → unless_gone (expiries n) r ≡ unless_gone (timeouts n) r
unfolding Outcome
unless_gone-expiries n s l (m, true) o ih = refl
unless_gone-expiries n s l (m, false) (h, o) ih = ih m o.state o.running

-- T1 is started again after each expiry that does not give up the link.
expiries-timeouts :
    (n : ℕ) (l : Link) → l.conn.state ≢ disconnected → IsRunning l → expiries n l ≡ timeouts n l
unfolding expiries timeouts
expiries-timeouts zero l ne t = refl
expiries-timeouts (suc n) l ne (timer, t) =
    ap (λ o. unless_gone (expiries n) (t1_fires l o)) t
    ∙ unless_gone-expiries n l.conn.state l (t1_expired l) (t1_expired-Outcome l ne)
        (λ m f. expiries-timeouts n m (λ d. ne (sym f ∙ d)))

-- A link that is connecting, connected or disconnecting, with T1 running and its retries not used up,
-- is given up when T1, which expires only while it runs, has had so many chances to expire that the
-- polls counted exceed N2: it is to be removed, its state is `Disconnected`, and the last thing that
-- happened is that the owner was told (the hook `ConnectFailed` with a timeout for a link that was
-- connecting, `Disconnected` for the others).
pub expiries-GivenUp :
    (n : ℕ) (l : Link)
    → l.conn.state ≢ disconnected
    → IsRunning l
    → l.conn.t1_polls ≤ retry_limit l
    → retry_limit l < l.conn.t1_polls + n
    → ((expiries n l).1 ≡ true) × GivenUp l.conn.state l.self (expiries n l).0
expiries-GivenUp n l ne t a b = rw (expiries-timeouts n l ne t) (timeouts_end n l ne a b)

unless_gone-waits :
    (n : ℕ) (l : Link) (r : Link × Bool)
    → Outcome l.conn.state l r
    → l.conn.t1_polls + suc n ≤ retry_limit l
    → ((m : Link)
        → m.conn.state ≡ l.conn.state
        → m.conn.t1_polls + n ≤ retry_limit m
        → ((timeouts n m).1 ≡ false) × ((timeouts n m).0.conn.state ≡ m.conn.state))
    → ((unless_gone (timeouts n) r).1 ≡ false)
      × ((unless_gone (timeouts n) r).0.conn.state ≡ l.conn.state)
unfolding Outcome
unless_gone-waits n l (m, true) (h, g) k ih = absurd (omega arith)
unless_gone-waits n l (m, false) (h, r) k ih =
    let rest = ih m r.state (omega (arith, Retried-limit r, r.polls)) in (rest.0, rest.1 ∙ r.state)

-- As long as the polls counted do not exceed N2, no expiry of T1 gives up a link that is connecting,
-- connected or disconnecting: it stays in its state.
pub timeouts-waits :
    (n : ℕ) (l : Link)
    → l.conn.state ≢ disconnected
    → l.conn.t1_polls + n ≤ retry_limit l
    → ((timeouts n l).1 ≡ false) × ((timeouts n l).0.conn.state ≡ l.conn.state)
unfolding timeouts
timeouts-waits zero l ne a = (refl, refl)
timeouts-waits (suc n) l ne a =
    unless_gone-waits n l (t1_expired l) (t1_expired-Outcome l ne) a
      (λ m f. timeouts-waits n m (λ d. ne (sym f ∙ d)))
