-- ===== src/Kernel/Delivery.antt =====
-- system/send.c, receive.c, recvclr.c and recvtime.c: what happens to a message.
use os_xinu.Prelude.{◌≢◌, ℕ, ◌≡◌, refl, ap, ◌∙◌, arith}
use os_xinu.Prelude.{true, false, ◌||◌, Bool-cases, inl, inr}
use os_xinu.Kernel.{Kernel, is_recv, is_rectim, isbadpid, set_proc}
use os_xinu.Kernel.Timer.{unsleep}
use os_xinu.Kernel.Message.{send, receive_exit, recvtime_exit}
use os_xinu.Kernel.Untouched.{ready-Same}

unsleep-proctab : (k : Kernel) (pid : ℕ) → (unsleep k pid).0.proctab ≡ k.proctab
unfolding unsleep
unsleep-proctab k pid = ground arith

-- The entry after the message is stored.
abbrev pub stored : Kernel → ℕ → ℕ → Kernel
stored k pid msg = set_proc k pid (record (k.proctab pid) { prmsg = msg; prhasmsg = true })

send-message :
    (k : Kernel) (pid msg : ℕ)
    → isbadpid k pid ≡ false
    → (k.proctab pid).prhasmsg ≡ false
    → let (k', accepted) = send k pid msg in
      (accepted ≡ true)
      × ((j : ℕ) → (k'.proctab j).prmsg ≡ ((stored k pid msg).proctab j).prmsg)
      × ((j : ℕ) → (k'.proctab j).prhasmsg ≡ ((stored k pid msg).proctab j).prhasmsg)
unfolding send
send-message k pid msg b e =
    let k1 = stored k pid msg in
    let k2 = (unsleep k1 pid).0 in
    let st = (k.proctab pid).prstate in
    let a = ready-Same k1 pid in
    let c = ready-Same k2 pid in
    let u = unsleep-proctab k1 pid in
    let g : (isbadpid k pid || (k.proctab pid).prhasmsg) ≡ false = ground (arith, b, e) in
    elim (Bool-cases (is_recv st)) [
      | inl r ↦ simp (g, r) (refl, a.prmsg, a.prhasmsg)
      | inr r ↦ elim (Bool-cases (is_rectim st)) [
        | inl t ↦
            simp (g, r, t)
              (
                refl,
                λ j. c.prmsg j ∙ ap (λ p. (p j).prmsg) u,
                λ j. c.prhasmsg j ∙ ap (λ p. (p j).prhasmsg) u,
              )
        | inr t ↦ simp (g, r, t) (refl, λ j. refl, λ j. refl)
      ]
    ]

receive_exit-message :
    (k : Kernel) (pid msg : ℕ)
    → (k.proctab pid).prmsg ≡ msg
    → (k.proctab pid).prhasmsg ≡ true
    → let (k1, m) = receive_exit k pid in
      let (k2, m') = recvtime_exit k pid in
      (m ≡ msg) × (m' ≡ msg) × ((k1.proctab pid).prhasmsg ≡ false) × (k2 ≡ k1)
unfolding receive_exit recvtime_exit
receive_exit-message k pid msg e h = simp h (e, e, ground arith, refl)

refused : (k : Kernel) (pid msg : ℕ) → (k.proctab pid).prhasmsg ≡ true → send k pid msg ≡ (k, false)
unfolding send
refused k pid msg h =
    let g : (isbadpid k pid || (k.proctab pid).prhasmsg) ≡ true = ground (arith, h) in simp g

-- A process with no message, in whatever state it is: `send` returns OK; a second `send` to it is
-- refused and changes nothing; when the process takes its message, by `receive` or by `recvtime`,
-- it gets the one that was sent, and has none afterwards; no other process gets or loses a message.
pub send_lem :
    (k : Kernel) (pid msg again j : ℕ)
    → isbadpid k pid ≡ false
    → (k.proctab pid).prhasmsg ≡ false
    → j ≢ pid
    → let (k', accepted) = send k pid msg in
      let (k1, m) = receive_exit k' pid in
      let (k2, m') = recvtime_exit k' pid in
      (accepted ≡ true)
      × (send k' pid again ≡ (k', false))
      × (m ≡ msg)
      × (m' ≡ msg)
      × ((k1.proctab pid).prhasmsg ≡ false)
      × (k2 ≡ k1)
      × ((k'.proctab j).prmsg ≡ (k.proctab j).prmsg)
      × ((k'.proctab j).prhasmsg ≡ (k.proctab j).prhasmsg)
send_lem k pid msg again j b e n =
    let k' = (send k pid msg).0 in
    let (a, p, h) = send-message k pid msg b e in
    let has : (k'.proctab pid).prhasmsg ≡ true = h pid ∙ ground arith in
    let r = receive_exit-message k' pid msg (p pid ∙ ground arith) has in
    (a, refused k' pid again has, r.0, r.1, r.2, r.3, p j ∙ ground arith, h j ∙ ground arith)
