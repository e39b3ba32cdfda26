-- ===== src/Tests/Titles.antt =====
-- The title of the process at a concrete input.
use flydragon.Base.{
  ℕ, ◌-◌, ◌<◌, ◌≤◌, ◌≡◌, ◌⊎◌, inl, refl, List, [], ◌∷◌, ◌++◌, none, ◌==◌, if◌then◌else◌, length,
  arith,
}
use flydragon.Title.{Titled, init_setproctitle, setproctitle}
use flydragon.Title.Strings.{HasString}
use flydragon.Title.Moved.{Each}
use flydragon.Title.Kept.{bytes_at, zeros, setproctitle-moved}

-- Memory with the argument "a" and the variable "x" behind it.
abbrev started : Titled
started = record {
  memory = λ q. if q == 10 then b'a' else if q == 12 then b'x' else 0;
  argv_0 = 10;
  argv_1 = none;
  environ = 12 ∷ [];
  argvneedmem = 2;
  envneedmem = 2;
  envmem = 0;
}

abbrev short_title : List ℕ
short_title = b'f' ∷ b'd' ∷ []

abbrev after : Titled
after = setproctitle short_title (init_setproctitle 100 started)

setproctitle-moved_example :
    Each (HasString after.memory) after.environ ((b'x' ∷ []) ∷ [])
    × (((4 ≤ length short_title) × (after ≡ init_setproctitle 100 started))
        ⊎ ((length short_title < 4)
            × (bytes_at after.memory 10 4 ≡ short_title ++ zeros (4 - length short_title))
            × (after.argv_1 ≡ none)))
setproctitle-moved_example =
    setproctitle-moved short_title ((b'x' ∷ []) ∷ []) 100 started (omega arith, (omega arith, tt))
      refl (((refl, omega arith, refl), inl (omega arith)), tt) (inl (omega arith))
