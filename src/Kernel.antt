-- ===== src/Kernel.antt =====
-- The state of the kernel as a whole, the trap frame of src/interrupt.h, and how a kernel function
-- ends.
use storm_os.Base.{ℕ, Option, none, some, List}
use storm_os.Thread.State.{Threads}
use storm_os.MemVirtual.State.{Vm}
use storm_os.MemVirtual.Init.{Registers}
use storm_os.Keyboard.{Keyboard}
use storm_os.Console.{Console}
use storm_os.Pic.{Pic}
use storm_os.Interrupts.Segments.{Segments}

pub record TrapFrame : Type 0 where
  pub edi : ℕ
  pub esi : ℕ
  pub ebp : ℕ
  pub oesp : ℕ
  pub ebx : ℕ
  pub edx : ℕ
  pub ecx : ℕ
  pub eax : ℕ
  pub es : ℕ
  pub ds : ℕ
  pub trapno : ℕ
  pub err : ℕ
  pub eip : ℕ
  pub cs : ℕ
  pub eflags : ℕ
  pub esp : ℕ
  pub ss : ℕ

-- The globals of the files; `ports` are the words that PortWordOut was given, oldest first.
pub record Kernel : Type 0 where
  pub threads : Threads
  pub vm : Vm
  pub registers : Registers
  pub user_contexts : ℕ → TrapFrame
  pub pic : Pic
  pub segments : Segments
  pub keyboard : Keyboard
  pub console : Console
  pub ports : List (ℕ × ℕ)

-- A call returns, or stops in a panic, or does what C leaves undefined.
pub data Run {ℓ} (A : Type ℓ) : Type ℓ where
  done : A → Run A
  panics : Run A
  undefined : Run A

infixl 5 ◌>>=◌
abbrev pub ◌>>=◌ {ℓ κ} : {A : Type ℓ} {B : Type κ} → Run A → (A → Run B) → Run B
done a >>= f = f a
panics >>= f = panics
undefined >>= f = undefined

-- A result that is there unless the model's fuel or C's rules left it out.
abbrev pub defined {ℓ} : {A : Type ℓ} → Option A → Run A
defined none = undefined
defined (some a) = done a
