-- ===== src/NetRing/Handshake/Wakeups.antt =====
-- No wakeup is lost, none comes early, and none comes twice.
use netring.Prelude.{ℕ, ◌≤◌, ◌≡◌, ◌≢◌, ◌⊎◌, refl, inl, inr, ℤ, pos, arith}
use netring.NetRing.Cells.{TaskState, in_core, done, parked}
use netring.NetRing.Handshake.{
  Issuer, running, waiting, asleep, resumed, Completer, idle, written, woken, finished, Flight,
  park, complete, go_ready, Step, enter_park, swap_parked, write_result, swap_done, ready, Reach,
  start, next,
}

-- The combinations that can occur, by the positions of the two sides and the cell's state.
abbrev Consistent : Issuer → Completer → TaskState → ℕ → Type 0
Consistent running idle in_core n = n ≡ 0
Consistent running written in_core n = n ≡ 0
Consistent running finished done n = n ≡ 0
Consistent waiting idle in_core n = n ≡ 0
Consistent waiting written in_core n = n ≡ 0
Consistent waiting finished done n = n ≡ 0
Consistent asleep idle parked n = n ≡ 0
Consistent asleep written parked n = n ≡ 0
Consistent asleep woken parked n = n ≡ 0
Consistent resumed finished parked n = n ≡ 1
Consistent _ _ _ n = ⊥

abbrev Inv : Flight → Type 0
Inv f = Consistent f.issuer f.completer f.state f.wakeups × (f.bad_wakes ≡ 0)

Step-Inv : {f g : Flight} → Step f g → Inv f → Inv g
unfolding park complete go_ready
Step-Inv (enter_park f e) inv = ground arith
Step-Inv (swap_parked f e) inv = ground arith
Step-Inv (write_result f r e) inv = ground arith
Step-Inv (swap_done f e) inv = ground arith
Step-Inv (ready f e) inv = ground arith

Reach-Inv : {r : ℤ} {f : Flight} → Reach r f → Inv f
Reach-Inv start = (refl, refl)
Reach-Inv (next way step) = Step-Inv step (Reach-Inv way)

-- In every reachable state goready has only been called on a waiting goroutine, the goroutine got past
-- gopark at most once, and it is not past gopark unless the poller has written the result and finished.
pub wakeups-Reach :
    {r : ℤ} {f : Flight}
    → Reach r f
    → (f.bad_wakes ≡ 0) × (f.wakeups ≤ 1) × ((f.completer ≡ finished) ⊎ (f.issuer ≢ resumed))
wakeups-Reach {f} way =
    let inv = Reach-Inv way in
    (inv.1, ground arith, not_early f.issuer f.completer f.state f.wakeups inv.0)
  where
    not_early :
        (i : Issuer) (c : Completer) (s : TaskState) (n : ℕ)
        → Consistent i c s n
        → (c ≡ finished) ⊎ (i ≢ resumed)
    not_early i finished s n inv = inl refl
    not_early i idle s n inv = inr (ground arith)
    not_early i written s n inv = inr (ground arith)
    not_early i woken s n inv = inr (ground arith)

abbrev Next : Flight → Type 0
Next f = (g : Flight) × Step f g

move :
    (f : Flight) (i : Issuer) (c : Completer)
    → f.issuer ≡ i
    → f.completer ≡ c
    → Inv f
    → Next f ⊎ ((i ≡ resumed) × (c ≡ finished))
move f running c ei ec inv = inl (_, enter_park f ei)
move f waiting c ei ec inv = inl (_, swap_parked f ei)
move f asleep idle ei ec inv = inl (_, write_result f (pos 0) ec)
move f asleep written ei ec inv = inl (_, swap_done f ec)
move f asleep woken ei ec inv = inl (_, ready f ec)
move f asleep finished ei ec inv = absurd (ground arith)
move f resumed idle ei ec inv = absurd (ground arith)
move f resumed written ei ec inv = absurd (ground arith)
move f resumed woken ei ec inv = absurd (ground arith)
move f resumed finished ei ec inv = inr (refl, refl)

-- No wakeup is lost: in a reachable state some step is left, or the goroutine is past gopark and the
-- poller is finished.
pub progress :
    {r : ℤ} {f : Flight}
    → Reach r f
    → ((g : Flight) × Step f g) ⊎ ((f.issuer ≡ resumed) × (f.completer ≡ finished))
progress {f} way = move f f.issuer f.completer refl refl (Reach-Inv way)
