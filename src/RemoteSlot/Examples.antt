-- ===== src/RemoteSlot/Examples.antt =====
-- remote-slot.mjs: two processes that claim and release.
use oncm.Prelude.{◌≡◌, refl, true, false, none, some, [], ◌∷◌, ok, throw}
use oncm.RemoteSlot.{
  Request, Slot, missing, holds, slot_busy, different_request, invalid_binding, is_bound, claim,
  release, claiming, releasing, State, enter, leave,
}
use oncm.RemoteSlot.Exclusion.{enters, reads, leaves, Reach, here, next, Survives, Reach-Survives}

program : Unit {0}
unfolding enter leave claim release is_bound
program = tt

abbrev first : Request
first = record {
  repository = "example/test";
  digest = "aaaaaaaaaaaaaaaaaaaaaaaaaaaaaaaaaaaaaaaaaaaaaaaaaaaaaaaaaaaaaaaa";
  commit = "aaaaaaaaaaaaaaaaaaaaaaaaaaaaaaaaaaaaaaaa";
}

abbrev slot : Slot
slot = record { request = first; token = 7 }

abbrev other : Request
other = record first { commit = "bbbbbbbbbbbbbbbbbbbbbbbbbbbbbbbbbbbbbbbb" }

claims : claim first 7 missing ≡ ok (holds slot, slot)
unfolding program
claims = refl

claims_again : claim first 8 (holds slot) ≡ ok (holds slot, slot)
unfolding program
claims_again = refl

other_is_busy : claim other 8 (holds slot) ≡ throw slot_busy
unfolding program
other_is_busy = refl

wrong_token : release (record slot { token = 8 }) (holds slot) ≡ throw different_request
unfolding program
wrong_token = refl

abbrev start : State
start = record { lock = false; running = []; file = holds slot }

abbrev entered : State
entered = record { lock = true; running = (releasing slot, none) ∷ []; file = holds slot }

abbrev loaded : State
loaded = record {
  lock = true;
  running = (releasing slot, some (holds slot)) ∷ [];
  file = holds slot;
}

enter-start : enter true (releasing slot) start ≡ ok entered
unfolding program
enter-start = refl

enter_twice : enter true (claiming first 9) entered ≡ throw slot_busy
unfolding program
enter_twice = refl

enter_unbound :
    enter true (claiming (record first { repository = "example" }) 9) start ≡ throw invalid_binding
unfolding program
enter_unbound = refl

abbrev history : Reach start loaded
history =
    next (next here (enters start entered true (releasing slot) enter-start))
      (reads entered (releasing slot) [] [] refl)

Reach-Survives_example : Survives slot loaded (leave (releasing slot) (holds slot) [] loaded)
Reach-Survives_example =
    Reach-Survives slot refl history (leaves loaded (releasing slot) (holds slot) [] [] refl) refl
