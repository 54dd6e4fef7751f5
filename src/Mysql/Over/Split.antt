-- ===== src/Mysql/Over/Split.antt =====
-- mysql_is_over of swoole_mysql.cc: a stream of bytes cut into whole packets.
use async_ext.Prelude.{ℕ, ◌+◌, ◌<◌, ◌≤◌, ◌≡◌, arith, refl}
use async_ext.Str.{Memory}
use async_ext.Mysql.Wire.{header_size, uint3korr}

-- The place behind the packet at `a`, as its header says.
abbrev pub behind : Memory → ℕ → ℕ
behind m a = a + (header_size + uint3korr m a)

-- `b` is reached from `a` over whole packets.
pub data Split (m : Memory) : ℕ → ℕ → Type 0 where
  done : (a : ℕ) → Split m a a
  packet : (a : ℕ) {b : ℕ} → Split m (behind m a) b → Split m a b

pub Split-le : {m : Memory} {a b : ℕ} → Split m a b → a ≤ b
Split-le (done a) = omega arith
Split-le (packet a s) = omega (arith, Split-le s)

pub Split-snoc : {m : Memory} {a b : ℕ} → Split m a b → Split m a (behind m b)
Split-snoc {m} (done a) = packet a (done (behind m a))
Split-snoc (packet a s) = packet a (Split-snoc s)

-- Packets do not overlap: one that begins before the end of another ends no later.
pub behind-le :
    {m : Memory} {a p q : ℕ} → Split m a p → Split m a q → p < behind m q → behind m p ≤ behind m q
behind-le (done a) (done b) h = omega arith
behind-le (done a) (packet b t) h = omega (arith, Split-le t)
behind-le (packet a s) (done b) h = absurd (omega (arith, Split-le s))
behind-le (packet a s) (packet b t) h = behind-le s t h

-- So the packet that ends a stream is the only one that does.
pub last_unique :
    {m : Memory} {len a p q : ℕ}
    → Split m a p
    → behind m p ≡ len
    → Split m a q
    → behind m q ≡ len
    → p ≡ q
last_unique (done a) e (done b) f = refl
last_unique (done a) e (packet b t) f = absurd (omega (arith, Split-le t))
last_unique (packet a s) e (done b) f = absurd (omega (arith, Split-le s))
last_unique (packet a s) e (packet b t) f = last_unique s e t f
