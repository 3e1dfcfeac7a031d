-- ===== src/Echo/Views.antt =====
-- internal/cmd/echo/netring_client.go, lines 178-241: the frames that the receiver finds do not depend
-- on how the bytes are spread over the views.
use mathlib.Core.List.{append_assoc, append-nil}
use netring.Prelude.{
  ℕ, zero, suc, ◌≤◌, ◌<◌, ◌≡◌, refl, sym, inl, inr, true, false, List, [], ◌∷◌, ◌++◌, ◌==◌, ltb,
  if◌then◌else◌, length, arith, Bool-cases,
}
use netring.TestProtocol.{take, drop}
use netring.TestProtocol.Codec.{length-append, take-append, drop-append}
use netring.Echo.{
  Receiver, Receiving, Outcome, failed, passed, check_frame, then_do, frames_loop, receive_view,
  receive,
}

then_do-compose {ℓ ℓ' ℓ''} :
    {A : Type ℓ} {B : Type ℓ'} {C : Type ℓ''} (o : Outcome A) (h : A → Outcome C)
    (f : A → Outcome B) (g : B → Outcome C)
    → ((a : A) → h a ≡ then_do (f a) g)
    → then_do o h ≡ then_do (then_do o f) g
then_do-compose (failed error) h f g same = refl
then_do-compose (passed a) h f g same = same a

-- Bytes after the work are read after it.
pub frames_loop-append :
    (left : ℕ) (work more : List ℕ) (r : Receiver)
    → frames_loop left (work ++ more) r ≡ then_do (frames_loop left work r) (receive_view more)
unfolding frames_loop
frames_loop-append zero work more r = refl
frames_loop-append (suc left) work more r = elim (Bool-cases (ltb (length work) 21)) [
  | inl short ↦ rw short refl
  | inr whole ↦
      let enough : 21 ≤ length work = ground arith in
      let still : ltb (length (work ++ more)) 21 ≡ false =
        ground (arith, length-append work more) in
      rw (whole, still, take-append 21 work more enough, drop-append 21 work more enough)
        (then_do-compose (check_frame (take 21 work) r) (frames_loop left (drop 21 work ++ more))
          (frames_loop left (drop 21 work)) (receive_view more)
          (λ after. frames_loop-append left (drop 21 work) more after))
]

-- what a run tells: with every response there, the bytes after them are not looked at
abbrev pub told : Receiving → Outcome (ℕ × List ℕ × Receiver)
told s = passed (s.left, (if s.left == 0 then [] else s.carry), s.receiver)

-- the carry buffer holds less than a frame, or every response is there
abbrev pub IsSettled : Receiving → Type 0
IsSettled s = 0 < s.left → length s.carry < 21

abbrev Settles : Outcome Receiving → Type 0
Settles (failed error) = Unit
Settles (passed s) = IsSettled s

-- The loop over the frames leaves less than a frame.
frames_loop-Settles : (left : ℕ) (work : List ℕ) (r : Receiver) → Settles (frames_loop left work r)
unfolding frames_loop
frames_loop-Settles zero work r = λ open_left. absurd (omega arith)
frames_loop-Settles (suc left) work r = elim (Bool-cases (ltb (length work) 21)) [
  | inl short ↦ rw short (λ open_left. ground arith)
  | inr whole ↦ rw whole (
      checked (check_frame (take 21 work) r)
        (λ after. frames_loop-Settles left (drop 21 work) after))
]
  where
    checked :
        (o : Outcome Receiver)
        → ((after : Receiver) → Settles (frames_loop left (drop 21 work) after))
        → Settles (then_do o (frames_loop left (drop 21 work)))
    checked (failed error) settled = tt
    checked (passed after) settled = settled after

unfoldable pub concat : List (List ℕ) → List ℕ
concat [] = []
concat (view ∷ views) = view ++ concat views

nothing_more :
    (left : ℕ) (carry : List ℕ) (r : Receiver)
    → (0 < left → length carry < 21)
    → told (record { left = left; carry = carry; receiver = r })
      ≡ then_do (frames_loop left (carry ++ []) r) told
unfolding frames_loop
nothing_more zero carry r settled = refl
nothing_more (suc left) carry r settled =
    let short : ltb (length carry) 21 ≡ true = ground (arith, settled (omega arith)) in
    rw (append-nil carry, short) refl

frames_loop-zero :
    (work : List ℕ) (r : Receiver)
    → frames_loop 0 work r ≡ passed (record { left = 0; carry = work; receiver = r })
unfolding frames_loop
frames_loop-zero work r = refl

-- The receiver's verdict on some views, its maps and the bytes it keeps for later are those for one
-- view of all their bytes. The carry buffer holds less than a frame before, or every response is there.
pub receive-concat :
    (views : List (List ℕ)) (s : Receiving)
    → IsSettled s
    → then_do (receive views s) told ≡ then_do (receive_view (concat views) s) told
unfolding receive concat
receive-concat [] s settled = nothing_more s.left s.carry s.receiver settled
receive-concat (view ∷ views) s settled = by_left s.left s.carry s.receiver (receive-concat views)
  where
    Same : Receiving → Type 0
    Same after =
        then_do (receive views after) told ≡ then_do (receive_view (concat views) after) told

    viewed :
        (o : Outcome Receiving)
        → Settles o
        → ((after : Receiving) → IsSettled after → Same after)
        → then_do (then_do o (receive views)) told
          ≡ then_do (then_do o (receive_view (concat views))) told
    viewed (failed error) settled_after same = refl
    viewed (passed after) settled_after same = same after settled_after

    by_left :
        (left : ℕ) (carry : List ℕ) (r : Receiver)
        → ((after : Receiving) → IsSettled after → Same after)
        → then_do
            (if left == 0
              then passed (record { left = left; carry = carry; receiver = r })
              else then_do (frames_loop left (carry ++ view) r) (receive views))
            told
          ≡ then_do (frames_loop left (carry ++ (view ++ concat views)) r) told
    by_left zero carry r same = rw (frames_loop-zero (carry ++ (view ++ concat views)) r) refl
    by_left (suc left) carry r same =
        let apart : (suc left == 0) ≡ false = ground arith in
        rw
          (
            apart,
            sym (append_assoc carry view (concat views)),
            frames_loop-append (suc left) (carry ++ view) (concat views) r,
          )
          (viewed (frames_loop (suc left) (carry ++ view) r)
            (frames_loop-Settles (suc left) (carry ++ view) r) same)
