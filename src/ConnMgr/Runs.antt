-- ===== src/ConnMgr/Runs.antt =====
-- Induction over the rounds of a connection.
use altclaw.Common.{ℕ, zero, suc, ◌≡◌, refl, arith, subst}
use altclaw.ConnMgr.{Outside, Conn, Round, again, returned, removed, round, rounds, and_then}

abbrev pub conn_of : Round → Conn
conn_of (again c) = c
conn_of (returned c) = c
conn_of (removed c) = c

module _ {ℓ} (o : Outside) (P : Conn → Type ℓ) where
  and_then-lift :
      (r : Round) (next : Conn → Round)
      → P (conn_of r)
      → ((c : Conn) → P c → P (conn_of (next c)))
      → P (conn_of (and_then o r next))
  and_then-lift (again c) next h lift = lift c h
  and_then-lift (returned c) next h lift = h
  and_then-lift (removed c) next h lift = h

  -- What every round keeps holds after some rounds.
  pub rounds-lift :
      ((c : Conn) → P c → P (conn_of (round o c)))
      → (n : ℕ) (c : Conn) → P c
      → P (conn_of (rounds o n c))
  unfolding rounds
  rounds-lift step zero c h = h
  rounds-lift step (suc n) c h =
      and_then-lift (round o c) (rounds o n) (step c h) (rounds-lift step n)

  again-lift :
      ((c c' : Conn) → round o c ≡ again c' → P c → P c')
      → (r : Round) (c c' : Conn) (next : Conn → Round) → round o c ≡ r
      → P c
      → ((d : Conn) → next d ≡ again c' → P d → P c')
      → and_then o r next ≡ again c'
      → P c'
  again-lift step (again d) c c' next e h lift n = lift d n (step c d e h)
  again-lift step (returned d) c c' next e h lift n = absurd (ground arith)
  again-lift step (removed d) c c' next e h lift n = absurd (ground arith)

  -- What every round keeps that another follows holds before the next.
  pub rounds-again :
      ((c c' : Conn) → round o c ≡ again c' → P c → P c')
      → (n : ℕ) (c c' : Conn) → rounds o n c ≡ again c'
      → P c
      → P c'
  unfolding rounds
  rounds-again step zero c c' e h = subst P (same e) h
    where
      same : again c ≡ again c' → c ≡ c'
      same e = cc
  rounds-again step (suc n) c c' e h =
      again-lift step (round o c) c c' (rounds o n) refl h (λ d. rounds-again step n d c') e
