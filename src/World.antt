-- ===== src/World.antt =====
-- What the program changes outside its own variables: the setting files behind the lock of
-- src/utils/file/file.c, the shell commands that it runs and the messages that it publishes.
-- A computation is a function of this state that may stop.
use noc_demo.Common.{
  ℕ, ltb, ◌<◌, arith, if◌then◌else◌, ◌≡◌, Bool, Option, none, some, List, [], ◌∷◌, ◌++◌, length,
  append_assoc, append-nil,
}
use noc_demo.Common.Texts.{Text, text_eq}

-- what a call of fgetc on the pipe of a command finds: a byte, or nothing yet
pub data Read : Type 0 where
  byte : ℕ → Read
  again : Read

pub record World : Type 0 where
  -- the content of each file that can be opened for reading, by its path
  pub files : Text → Option Text
  -- can the path be opened for writing?
  pub writable : Text → Bool
  -- is `mutex_lock` of file.c held?
  pub locked : Bool
  -- the commands that the shell was given, oldest first
  pub executed : List Text
  -- what the calls of fgetc find for a command after those, until its output or its time is over
  pub answer : List Text → Text → List Read
  -- how many identifiers the UUID library has made
  pub uuids : ℕ
  -- the messages that were given to mosquitto_publish, oldest first: topic and text
  pub published : List (Text × Text)

-- Why a computation goes no further: it waits for a lock that nobody gives back, it writes past the
-- end of a buffer, it reads through a NULL pointer or past the end of an array, at an address that
-- is no pointer of the program, memory that was given back, or a member of a union that was not
-- written; or a loop of the model has run out of its fuel.
pub data Stop : Type 0 where
  deadlock overflow null_read out_of_bounds wild_read freed_read wrong_member out_of_fuel : Stop

pub data Run (A : Type 0) : Type 0 where
  done : A → World → Run A
  stopped : Stop → Run A

abbrev pub Cmd : Type 0 → Type 0
Cmd A = World → Run A

abbrev pub pure : {A : Type 0} → A → Cmd A
pure = done

abbrev pub stop : {A : Type 0} → Stop → Cmd A
stop s w = stopped s

module _ {A B : Type 0} where
  abbrev pub and_then : Run A → (A → Cmd B) → Run B
  and_then (done a w) k = k a w
  and_then (stopped s) k = stopped s

  infixl 5 ◌>>=◌ ◌>>◌
  abbrev pub ◌>>=◌ : Cmd A → (A → Cmd B) → Cmd B
  m >>= k = λ w. and_then (m w) k

  abbrev pub ◌>>◌ : Cmd A → Cmd B → Cmd B
  m >> n = m >>= λ _. n

abbrev pub update : (Text → Option Text) → Text → Text → Text → Option Text
update files path s q = if text_eq path q then some s else files q

-- `char buffer[size]; sprintf(buffer, …)` with the text that is written, its NUL included
unfoldable pub sprintf : ℕ → Text → Cmd Text
sprintf size s w = if ltb (length s) size then done s w else stopped overflow

pub sprintf_fits : (size : ℕ) (s : Text) (w : World) → length s < size → sprintf size s w ≡ done s w
unfolding sprintf
sprintf_fits size s w fit = ground arith

-- `%s` of a NULL pointer, as glibc and musl print it
abbrev pub arg : Option Text → Text
arg none = 0x28 ∷ 0x6e ∷ 0x75 ∷ 0x6c ∷ 0x6c ∷ 0x29 ∷ []
arg (some s) = s

-- the world after the shell was given these commands
abbrev pub ran : List Text → World → World
ran commands w = record w { executed = w.executed ++ commands }

pub ran-ran : (a b : List Text) (w : World) → ran b (ran a w) ≡ ran (a ++ b) w
ran-ran a b w i = record w { executed = append_assoc w.executed a b i }

pub ran_nothing : (w : World) → ran [] w ≡ w
ran_nothing w i = record w { executed = append-nil w.executed i }
