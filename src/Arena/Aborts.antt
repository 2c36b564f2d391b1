-- ===== src/Arena/Aborts.antt =====
-- How functions over the arena end: with a value, with exit code 1, or in undefined behaviour.
use bitcode.Base.{
  ℕ, ◌+◌, ◌*◌, ◌-◌, ◌/◌, ◌||◌, Bool, true, false, [], Option, none, some, Bytes, Outcome, ok,
  exited, fault, Fault, null_pointer, memory_out_of_bounds, length, ltb, ◌==◌, if◌then◌else◌,
  to_size, size_mod,
}
use bitcode.Base.Stateful.{Stateful, pure, ◌>>=◌}
use bitcode.Arena.{MemoryArena, header_size, arena_alloc, arena_calloc, arena_strdup}

pub data Allocates {A : Type 0} : Outcome (A × MemoryArena) → Type 0 where
  gives : (a : A) (arena : MemoryArena) → Allocates (ok (a, arena))
  aborts : Allocates (exited 1 [])
  breaks : (e : Fault) → Allocates (fault e)

pub record Aborting {A : Type 0} (m : Stateful MemoryArena A) : Type 0 where
  pub ends : (a : MemoryArena) → Allocates (m a)

Allocates-bind :
    {A B : Type 0} {r : Outcome (A × MemoryArena)} (a : MemoryArena)
    (f : A → Stateful MemoryArena B)
    → Allocates r
    → ((x : A) → Aborting (f x))
    → Allocates (((λ b. r) >>= f) a)
Allocates-bind a f (gives x b) k = (k x).ends b
Allocates-bind a f aborts k = aborts
Allocates-bind a f (breaks e) k = breaks e

pub bind :
    {A B : Type 0} {m : Stateful MemoryArena A} {f : A → Stateful MemoryArena B}
    → Aborting m
    → ((a : A) → Aborting (f a))
    → Aborting (m >>= f)
bind {f = f} h k = record { ends = λ a. Allocates-bind a f (h.ends a) k }

pub pure-Aborting : {A : Type 0} (a : A) → Aborting (pure {A = A} a)
pure-Aborting a = record { ends = λ arena. gives a arena }

pub either :
    {A : Type 0} (b : Bool) {x y : Stateful MemoryArena A}
    → Aborting x
    → Aborting y
    → Aborting (if b then x else y)
either true h k = h
either false h k = k

pub by_option :
    {A B : Type 0} (o : Option B) {x : Stateful MemoryArena A} {f : B → Stateful MemoryArena A}
    → Aborting x
    → ((b : B) → Aborting (f b))
    → Aborting (elim o [ none ↦ x | some b ↦ f b ])
by_option none h k = h
by_option (some b) h k = k b

choose :
    {A : Type 0} (b : Bool) {x y : Outcome (A × MemoryArena)}
    → Allocates x
    → Allocates y
    → Allocates (if b then x else y)
choose true h k = h
choose false h k = k

pub arena_alloc-Aborting : (n : ℕ) → Aborting (arena_alloc n)
unfolding arena_alloc
arena_alloc-Aborting n = record {
  ends = λ a. choose (ltb a.size (to_size (a.offset + to_size (n + header_size)))) aborts (
      choose (a.buffer == 0) (breaks null_pointer)
        (choose (ltb a.size (a.offset + header_size)) (breaks memory_out_of_bounds) (gives _ _)));
}

pub arena_strdup-Aborting : (s : Bytes) → Aborting (arena_strdup s)
unfolding arena_strdup
arena_strdup-Aborting s = arena_alloc-Aborting (length s + 1)

pub arena_calloc-Aborting : (count size : ℕ) → Aborting (arena_calloc count size)
unfolding arena_calloc
arena_calloc-Aborting count size =
    let null = pure-Aborting none in
    either (count == 0 || size == 0) null (
      either (ltb ((size_mod - 1) / count) size) null
        (bind (arena_alloc-Aborting (to_size (count * size))) λ p. pure-Aborting (some p)))
