-- ===== src/TaskSlots/Race/Steps.antt =====
-- What each step of the two threads does to the table that the shared memory stands for.
use netring.Prelude.{
  ℕ, ◌≤◌, ◌<◌, ◌≡◌, refl, subst, sym, true, false, ◌&&◌, Option, none, arith, ◌==◌, ==_iff, ltb,
  if◌then◌else◌, lookup-delete, Bool-cases, inl, inr,
}
use netring.TaskSlots.{Slots, del, pending}
use netring.TaskSlots.Invariant.{live, view, Valid}
use netring.TaskSlots.Keeps.{del-Inv, del-same, del_hot-view}
use netring.TaskSlots.Fallback.{Inv-fallback}
use netring.TaskSlots.Race.{
  Translator, outside, saturated, looking, facing, swapping, holding, Poller, idle, counting, Event,
  quiet, deleted, Race, enter, release, count_release, forget, counted, merged, table, Step, call,
  translate, delete_hot, count, delete_cold,
}
use netring.TaskSlots.Race.Release.{release-table, release-apart}
use netring.TaskSlots.Race.Shared.{Placed, Moves, proceed-Moves}

module _ {ℓ} {T : Type ℓ} where
  -- the map that the shared memory stands for
  abbrev pub seen : Race T → ℕ → Option T
  seen r = view (table r.translator r.poller r.slots)

  pub record IsOrdered (words ring back : ℕ) (r : Race T) : Type 0 where
    pub valid : Valid words ring back (table r.translator r.poller r.slots)
    pub placed : Placed words r.translator r.slots

  module _ (words : ℕ) where
    forget-Placed :
        (t : Translator T) (idx : ℕ) (s : Slots T)
        → Placed words t s
        → Placed words t (forget idx s)
    unfolding forget
    forget-Placed outside idx s placed = placed
    forget-Placed (saturated v) idx s placed = placed
    forget-Placed (looking v) idx s placed = placed
    forget-Placed (facing v i) idx s placed = placed
    forget-Placed (swapping v i) idx s placed = placed
    forget-Placed (holding v i pw) idx s placed = placed

    count-Placed :
        (t : Translator T) (s : Slots T) → Placed words t s → Placed words t (count_release s)
    unfolding count_release
    count-Placed outside s placed = placed
    count-Placed (saturated v) s placed = placed
    count-Placed (looking v) s placed = placed
    count-Placed (facing v i) s placed = placed
    count-Placed (swapping v i) s placed = placed
    count-Placed (holding v i pw) s placed = placed

    release-Placed :
        (t : Translator T) (idx : ℕ) (s : Slots T)
        → live (table t idle s) idx ≡ true
        → Placed words t s
        → Placed words t (release idx s)
    release-Placed outside idx s held placed = placed
    release-Placed (saturated v) idx s held placed = placed
    release-Placed (looking v) idx s held placed = placed
    release-Placed (facing v i) idx s held placed = placed
    release-Placed (swapping v i) idx s held placed = placed
    release-Placed (holding v i pw) idx s held (inside, apart) =
        (inside, release-apart s idx v i pw held apart)

  module _ {words ring back : ℕ} where
    -- The count follows the bit, which was the whole release.
    count-Moves :
        (t : Translator T) (s : Slots T)
        → Valid words ring back (table t counting s)
        → Placed words t s
        → Moves words ring back idle (view (table t counting s)) (quiet, t, count_release s)
    unfolding table count_release counted
    count-Moves t s valid placed = record {
      valid = valid;
      placed = count-Placed words t s placed;
      acts = λ j. refl;
    }

    forget-Moves :
        (t : Translator T) (p : Poller) (idx : ℕ) (s : Slots T)
        → Valid words ring back (table t p s)
        → Placed words t s
        → s.cap ≤ idx
        → Moves words ring back p (view (table t p s)) (deleted idx, t, forget idx s)
    unfolding table forget
    forget-Moves t p idx s valid placed past = record {
      valid = record {
        slots = Inv-fallback (table t p s) _ _ valid.slots;
        back_ring = record { ring = valid.back_ring.ring; fits = valid.back_ring.fits };
      };
      placed = forget-Placed words t idx s placed;
      acts = λ j. rw lookup-delete (elim (Bool-cases (idx == j)) [
        | inl e ↦
            let at : idx ≡ j = (==_iff _ _).0 e in
            let past_j : ltb j s.cap ≡ false = ground arith in rw (past_j, e)
        | inr e ↦ rw e
      ]);
    }

    release-Moves :
        (t : Translator T) (idx : ℕ) (s : Slots T)
        → Valid words ring back (table t idle s)
        → Placed words t s
        → idx < s.cap
        → live (table t idle s) idx ≡ true
        → Moves words ring back counting (view (table t idle s)) (deleted idx, t, release idx s)
    unfolding table
    release-Moves t idx s valid placed hot held =
        let same = sym (release-table s idx t hot) in
        let full : Slots T = table t idle s in
        let (_, _, _, same_wave, same_mask) = del-same full valid.slots idx held hot in
        let deletes : Valid words ring back (del idx full) = record {
          slots = del-Inv full valid.slots idx held hot;
          back_ring = record {
            ring = rw same_mask valid.back_ring.ring;
            fits = rw same_wave valid.back_ring.fits;
          };
        } in
        record {
          valid = subst (Valid words ring back) same deletes;
          placed = release-Placed words t idx s held placed;
          acts =
              subst (λ q. (j : ℕ) → view q j ≡ (if idx == j then none else view full j)) same
                (del_hot-view full valid.slots idx held hot);
        }

    enter-Moves :
        (v : T) (p : Poller) (s : Slots T)
        → Valid words ring back (table outside p s)
        → Moves words ring back p (view (table outside p s)) (quiet, enter v s, s)
    unfolding enter table merged
    enter-Moves v p s valid = elim (Bool-cases (s.free == 0 && pending s == 0)) [
      | inl full ↦ rw full (record { valid = valid; placed = tt; acts = λ j. refl })
      | inr room ↦ rw room (record { valid = valid; placed = tt; acts = λ j. refl })
    ]

    -- A step of either thread keeps the table in order, and acts on the map as its event says.
    pub Step-Moves :
        (r : Race T) {e : Event T} {r' : Race T}
        → Step r e r'
        → IsOrdered words ring back r
        → Moves words ring back r'.poller (seen r) (e, r'.translator, r'.slots)
    Step-Moves r (call v away) ok =
        subst
          (λ t.
            Moves words ring back r.poller (view (table t r.poller r.slots))
              (quiet, enter v r.slots, r.slots))
          (sym away)
          (enter-Moves v r.poller r.slots
            (subst (λ t. Valid words ring back (table t r.poller r.slots)) away ok.valid))
    Step-Moves r (translate moved) ok =
        subst (Moves words ring back r.poller (seen r)) moved
          (proceed-Moves r.poller r.slots r.translator ok.valid ok.placed)
    Step-Moves r (delete_hot idx at_idle hot held) ok =
        subst
          (λ p.
            Valid words ring back (table r.translator p r.slots)
            → live (table r.translator p r.slots) idx ≡ true
            → Moves words ring back counting (view (table r.translator p r.slots))
                (deleted idx, r.translator, release idx r.slots))
          (sym at_idle)
          (λ valid live. release-Moves r.translator idx r.slots valid ok.placed hot live) ok.valid
          held
    Step-Moves r (count at_counting) ok =
        subst
          (λ p.
            Valid words ring back (table r.translator p r.slots)
            → Moves words ring back idle (view (table r.translator p r.slots))
                (quiet, r.translator, count_release r.slots))
          (sym at_counting) (λ valid. count-Moves r.translator r.slots valid ok.placed) ok.valid
    Step-Moves r (delete_cold idx at_idle past task there) ok =
        forget-Moves r.translator r.poller idx r.slots ok.valid ok.placed past
