-- ===== src/Arch/Timer/Callbacks.antt =====
-- The table of callbacks as the list of the first seven that were registered.
use xyris.Base.{
  ℕ, zero, suc, ◌+◌, ◌-◌, ◌≤◌, ◌<◌, ◌≡◌, refl, sym, ap, ◌∙◌, Option, some, List, [], ◌∷◌, ◌++◌,
  append-nil, append_assoc, subst, arith, ltb, true, false,
}
use xyris.Arch.Timer.{
  Timer, max_callbacks, no_timer, timer_register_callback, call_loop, timer_callback, update,
}

-- Registering the callbacks of a list, in order.
abbrev pub register_all : {C : Type 0} → Timer C → List C → Timer C
register_all t [] = t
register_all t (f ∷ fs) = register_all (timer_register_callback t f) fs

-- The first `n` of a list, and the calls of a list, in order.
abbrev pub first : {C : Type 0} → ℕ → List C → List C
first zero fs = []
first (suc n) [] = []
first (suc n) (f ∷ fs) = f ∷ first n fs

abbrev pub call_all : {W : Type 0} → List (W → W) → W → W
call_all [] w = w
call_all (f ∷ fs) w = call_all fs (f w)

-- The slots from `i` on hold the callbacks `fs`.
abbrev pub Slots : {C : Type 0} → (ℕ → Option C) → ℕ → List C → Type 0
Slots slots i [] = Unit {0}
Slots slots i (f ∷ fs) = (slots i ≡ some f) × Slots slots (i + 1) fs

abbrev pub count : {C : Type 0} → List C → ℕ
count [] = 0
count (f ∷ fs) = suc (count fs)

-- The table holds the callbacks `fs`.
pub record Table {C : Type 0} (t : Timer C) (fs : List C) : Type 0 where
  pub counted : t.callback_count ≡ count fs
  pub slots : Slots t.callbacks 0 fs
  pub fits : count fs ≤ max_callbacks - 1

Slots-update :
    {C : Type 0} (slots : ℕ → Option C) (i k : ℕ) (fs : List C) (f : C)
    → i + count fs ≡ k
    → Slots slots i fs
    → Slots (update slots k (some f)) i (fs ++ (f ∷ []))
Slots-update slots i k [] f e h = (ground arith, tt)
Slots-update slots i k (g ∷ gs) f e (at, h) =
    (ground arith, Slots-update slots (i + 1) k gs f (omega arith) h)

count-snoc : {C : Type 0} (fs : List C) (f : C) → count (fs ++ (f ∷ [])) ≡ suc (count fs)
count-snoc [] f = refl
count-snoc (g ∷ gs) f = ap suc (count-snoc gs f)

register-Table :
    {C : Type 0} (t : Timer C) (fs : List C) (f : C)
    → Table t fs
    → count fs < max_callbacks - 1
    → Table (timer_register_callback t f) (fs ++ (f ∷ []))
unfolding timer_register_callback
register-Table t fs f h lt =
    let room : ltb t.callback_count 7 ≡ true = ground (arith, h.counted) in
    let more = count-snoc fs f in
    rw room (record {
      counted = omega (arith, h.counted, more);
      slots = Slots-update t.callbacks 0 t.callback_count fs f (omega (arith, h.counted)) h.slots;
      fits = omega (arith, more);
    })

-- A full table stays as it is.
register-full :
    {C : Type 0} (t : Timer C) (f : C) → 7 ≤ t.callback_count → timer_register_callback t f ≡ t
unfolding timer_register_callback
register-full t f le = let full : ltb t.callback_count 7 ≡ false = ground arith in rw full refl

register-tick :
    {C : Type 0} (t : Timer C) (f : C) → (timer_register_callback t f).timer_tick ≡ t.timer_tick
unfolding timer_register_callback
register-tick t f = ground arith

register_all-Table :
    {C : Type 0} (fs gs : List C) (t : Timer C) (room : ℕ)
    → Table t gs
    → count gs + room ≡ 7
    → Table (register_all t fs) (gs ++ first room fs)
      × ((register_all t fs).timer_tick ≡ t.timer_tick)
register_all-Table [] gs t zero h e = (subst (Table t) (sym (append-nil gs)) h, refl)
register_all-Table [] gs t (suc room) h e = (subst (Table t) (sym (append-nil gs)) h, refl)
register_all-Table {C} (f ∷ fs) gs t zero h e =
    subst
      (λ (u : Timer C).
        Table (register_all u fs) (gs ++ []) × ((register_all u fs).timer_tick ≡ t.timer_tick))
      (sym (register-full t f (omega (arith, h.counted)))) (register_all-Table fs gs t zero h e)
register_all-Table (f ∷ fs) gs t (suc room) h e =
    let more = count-snoc gs f in
    let (table, tick) =
      register_all-Table fs (gs ++ (f ∷ [])) (timer_register_callback t f) room
        (register-Table t gs f h (omega arith)) (omega (arith, more)) in
    (
      subst (Table (register_all (timer_register_callback t f) fs))
          (append_assoc gs (f ∷ []) (first room fs)) table,
      tick ∙ register-tick t f,
    )

call_loop-all :
    {W : Type 0} (slots : ℕ → Option (W → W)) (i : ℕ) (fs : List (W → W)) (w : W)
    → Slots slots i fs
    → call_loop slots (count fs) i w ≡ some (call_all fs w)
unfolding call_loop
call_loop-all slots i [] w h = refl
call_loop-all slots i (f ∷ fs) w (at, h) = rw at (call_loop-all slots (i + 1) fs (f w) h)

-- From an empty table on, a timer interrupt after the registration of the callbacks `fs` counts one
-- tick and calls the first seven of `fs`, in the order of registration and each once; no call goes
-- through a slot that was not written.
pub timer_callback-calls :
    {W : Type 0} (fs : List (W → W)) (w : W)
    → timer_callback (register_all no_timer fs) w
      ≡ some (record (register_all no_timer fs) { timer_tick = 1 }, call_all (first 7 fs) w)
unfolding timer_callback
timer_callback-calls fs w =
    let (table, tick) =
      register_all-Table fs [] no_timer 7
        (record { counted = refl; slots = tt; fits = omega arith }) refl in
    rw (table.counted, tick, call_loop-all _ 0 (first 7 fs) w table.slots) refl
