-- ===== src/Irc/Ringbuf.antt =====
-- irc/internal/ringbuf/ringbuf.go. Each method holds the mutex throughout, so a call is one step.
-- The zero value of the element type is a parameter; capacities are not negative here.
pub mod Queue
pub mod Views
use go_protocols.Common.{
  ℕ, zero, suc, ◌+◌, ◌-◌, ◌%◌, Bool, true, false, List, [], ◌∷◌, ltb, ◌==◌, if◌then◌else◌, get_or,
  set, replicate,
}

pub record RingBuf {ℓ} (A : Type ℓ) : Type ℓ where
  pub buf : List A
  pub head : ℕ
  pub size : ℕ
  pub cap : ℕ

module _ {ℓ} {A : Type ℓ} (null : A) where
  -- New
  unfoldable pub new : ℕ → RingBuf A
  new capacity =
      let c = if capacity == 0 then 1 else capacity in
      record { buf = replicate c null; head = 0; size = 0; cap = c }

  -- r.buf[(r.head+i)%r.cap_]
  unfoldable pub at : RingBuf A → ℕ → A
  at r i = get_or r.buf ((r.head + i) % r.cap) null

  -- out[k] = r.buf[(r.head+start+k)%r.cap_] for k in range n
  unfoldable pub copy_out : RingBuf A → ℕ → ℕ → List A
  unfolding at
  copy_out r start zero = []
  copy_out r start (suc n) = at r start ∷ copy_out r (start + 1) n

  -- Slice
  unfoldable pub slice : RingBuf A → List A
  unfolding copy_out
  slice r = copy_out r 0 r.size

  -- Last
  unfoldable pub last : ℕ → RingBuf A → List A
  unfolding copy_out
  last n r = let m = if ltb r.size n then r.size else n in copy_out r (r.size - m) m

module _ {ℓ κ} {A : Type ℓ} {S : Type κ} (null : A) where
  -- The calls of ForEach from the element i on; fn works on a state of its own.
  unfoldable pub visit : (A → S → S × Bool) → RingBuf A → ℕ → ℕ → S → S
  visit fn r i zero s = s
  visit fn r i (suc n) s =
      let (s', more) = fn (at null r i) s in
      let rest = visit fn r (i + 1) n s' in if more then rest else s'

  -- ForEach
  unfoldable pub for_each : (A → S → S × Bool) → RingBuf A → S → S
  unfolding visit
  for_each fn r s = visit fn r 0 r.size s

module _ {ℓ} {A : Type ℓ} where
  -- Push
  unfoldable pub push : A → RingBuf A → RingBuf A
  push v r =
      if r.size == r.cap
      then record r { buf = set r.buf r.head v; head = (r.head + 1) % r.cap }
      else record r { buf = set r.buf ((r.head + r.size) % r.cap) v; size = r.size + 1 }

  -- Len
  unfoldable pub len : RingBuf A → ℕ
  len r = r.size
