-- ===== src/Arch/Interrupts/Dispatch.antt =====
-- Which handler an interrupt request reaches.
use xyris.Base.{
  ℕ, ◌+◌, ◌≡◌, ◌≢◌, refl, Option, some, true, false, arith, ◌==◌, leb, if◌then◌else◌, ◌⊎◌, inl, inr,
}
use xyris.Arch.Interrupts.{
  Interrupt, interrupt_0, interrupt_1, interrupt_2, interrupt_3, interrupt_4, interrupt_5,
  interrupt_6, interrupt_7, interrupt_8, interrupt_9, interrupt_10, interrupt_11, interrupt_12,
  interrupt_13, interrupt_14, interrupt_15, vector, Handler, WriteByte, register_handler,
  acknowledge, interrupt_handler,
}

-- The interrupt request that a name stands for.
abbrev pub request : Interrupt → ℕ
request interrupt_0 = 0
request interrupt_1 = 1
request interrupt_2 = 2
request interrupt_3 = 3
request interrupt_4 = 4
request interrupt_5 = 5
request interrupt_6 = 6
request interrupt_7 = 7
request interrupt_8 = 8
request interrupt_9 = 9
request interrupt_10 = 10
request interrupt_11 = 11
request interrupt_12 = 12
request interrupt_13 = 13
request interrupt_14 = 14
request interrupt_15 = 15

-- The number of the request that a name stands for; the name for the fifth has the number of another.
abbrev Named : Interrupt → Type 0
Named i = (vector i ≡ 32 + request i) ⊎ (i ≡ interrupt_5)

vector-Named : (i : Interrupt) → Named i
vector-Named interrupt_0 = inl refl
vector-Named interrupt_1 = inl refl
vector-Named interrupt_2 = inl refl
vector-Named interrupt_3 = inl refl
vector-Named interrupt_4 = inl refl
vector-Named interrupt_5 = inr refl
vector-Named interrupt_6 = inl refl
vector-Named interrupt_7 = inl refl
vector-Named interrupt_8 = inl refl
vector-Named interrupt_9 = inl refl
vector-Named interrupt_10 = inl refl
vector-Named interrupt_11 = inl refl
vector-Named interrupt_12 = inl refl
vector-Named interrupt_13 = inl refl
vector-Named interrupt_14 = inl refl
vector-Named interrupt_15 = inl refl

register-here :
    {W : Type 0} (handlers : ℕ → Option (Handler W)) (n : ℕ) (handler : Handler W)
    → register_handler handlers n handler n ≡ some handler
unfolding register_handler
register-here handlers n handler = let e : (n == n) ≡ true = ground arith in rw e refl

register-other :
    {W : Type 0} (handlers : ℕ → Option (Handler W)) (n m : ℕ) (handler : Handler W)
    → n ≢ m
    → register_handler handlers n handler m ≡ handlers m
unfolding register_handler
register-other handlers n m handler ne = let e : (n == m) ≡ false = ground arith in rw e refl

acknowledge-request :
    {W : Type 0} (write_byte : WriteByte W) (r : ℕ) (w : W)
    → acknowledge write_byte (32 + r) w
      ≡ write_byte 0x20 0x20 (if leb 8 r then write_byte 0xa0 0x20 w else w)
unfolding acknowledge
acknowledge-request write_byte r w = let e : leb 0x28 (32 + r) ≡ leb 8 r = ground arith in rw e refl

-- Whatever `writeByte` and the handlers do to the state: a handler that is registered under a name other
-- than that of the fifth request runs when that request comes, with the request's number and in the state
-- that the ends of interrupt have left; these go first to the secondary controller, if the request is one
-- of the upper eight, and then to the primary one.
pub interrupt_handler-registered :
    {W : Type 0} (write_byte : WriteByte W) (handlers : ℕ → Option (Handler W)) (i : Interrupt)
    (handler : Handler W) (w : W)
    → i ≢ interrupt_5
    → interrupt_handler write_byte (register_handler handlers (vector i) handler) (32 + request i) w
      ≡ handler
          (32 + request i)
          (write_byte 0x20 0x20 (if leb 8 (request i) then write_byte 0xa0 0x20 w else w))
unfolding interrupt_handler
interrupt_handler-registered write_byte handlers i handler w ne = elim (vector-Named i) [
  | inr five ↦ absurd (ne five)
  | inl e ↦
      rw
        (
          e,
          register-here handlers (32 + request i) handler,
          acknowledge-request write_byte (request i) w,
        )
        refl
]

-- A handler that is registered under the name of the fifth request is not called when that request
-- comes: what runs is what was there before, if anything.
pub interrupt_handler-fifth :
    {W : Type 0} (write_byte : WriteByte W) (handlers : ℕ → Option (Handler W))
    (handler : Handler W) (w : W)
    → interrupt_handler write_byte
        (register_handler handlers (vector interrupt_5) handler)
        (32 + 5)
        w
      ≡ interrupt_handler write_byte handlers (32 + 5) w
unfolding interrupt_handler
interrupt_handler-fifth write_byte handlers handler w =
    rw (register-other handlers 0x35 37 handler (omega arith)) refl
