-- ===== src/Title.antt =====
-- app/flyd_setproctitle.cc: the environment moves to a block of its own, so that the title of the
-- process may take the place of the arguments and of the old environment. The file is not built at
-- present: its globals are declared under ENVMOVE.
pub mod Strings
pub mod Moved
pub mod Kept
use flydragon.Base.{
  ℕ, zero, suc, ◌+◌, ◌-◌, List, [], ◌∷◌, Option, none, ◌==◌, leb, if◌then◌else◌, length, update,
}

-- The bytes at the addresses.
abbrev pub Bytes : Type 0
Bytes = ℕ → ℕ

-- The memory and the globals: `g_os_argv` by its first two elements, `environ` without its end.
pub record Titled : Type 0 where
  pub memory : Bytes
  pub argv_0 : ℕ
  pub argv_1 : Option ℕ
  pub environ : List ℕ
  pub argvneedmem : ℕ
  pub envneedmem : ℕ
  pub envmem : ℕ

-- The string at an address, with fuel for its bytes; `strlen` is its length.
unfoldable pub string_at : ℕ → Bytes → ℕ → List ℕ
string_at zero m p = []
string_at (suc fuel) m p =
    let rest = string_at fuel m (p + 1) in if m p == 0 then [] else m p ∷ rest

-- `strcpy` of the string to an address outside of it
unfoldable pub put_string : Bytes → ℕ → List ℕ → Bytes
put_string m p [] = update m p 0
put_string m p (c ∷ cs) = put_string (update m p c) (p + 1) cs

-- `memset(p, 0, n)`
unfoldable pub clear : Bytes → ℕ → ℕ → Bytes
clear m p zero = m
clear m p (suc n) = clear (update m p 0) (p + 1) n

-- The loop over `environ` from `ptmp` on: the new pointers and the memory.
unfoldable pub move_all : ℕ → ℕ → List ℕ → Bytes → List ℕ × Bytes
unfolding string_at put_string
move_all fuel ptmp [] m = ([], m)
move_all fuel ptmp (e ∷ es) m =
    let cs = string_at fuel m e in
    let size = length cs + 1 in
    let (rest, moved) = move_all fuel (ptmp + size) es (put_string m ptmp cs) in
    (ptmp ∷ rest, moved)

-- `flyd_init_setproctitle`, when `new` gives the block at `envmem`
unfoldable pub init_setproctitle : ℕ → Titled → Titled
unfolding clear move_all
init_setproctitle envmem s =
    let (pointers, m) =
      move_all s.envneedmem envmem s.environ (clear s.memory envmem s.envneedmem) in
    record s { envmem = envmem; environ = pointers; memory = m }

-- `flyd_setproctitle`, with the bytes of the title
unfoldable pub setproctitle : List ℕ → Titled → Titled
unfolding put_string clear
setproctitle title s =
    let ititlelen = length title in
    let esy = s.argvneedmem + s.envneedmem in
    if leb esy ititlelen then s else record s {
      argv_1 = none;
      memory = clear (put_string s.memory s.argv_0 title) (s.argv_0 + ititlelen) (esy - ititlelen);
    }
