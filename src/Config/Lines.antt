-- ===== src/Config/Lines.antt =====
-- A line of the configuration file, as `fgets` reads it and `Load` takes it apart.
use flydragon.Base.{
  ℕ, zero, suc, ◌+◌, ◌≤◌, ◌≡◌, ◌≢◌, refl, sym, ap, ap₂, ◌∙◌, List, [], ◌∷◌, ◌++◌, some, false,
  arith, length, ne→==, append_assoc,
}
use flydragon.Config.{
  ConfigMap, is_skipped, fgets, c_string, split_at_equals, insert_item, load_line, trim,
}
use flydragon.Config.Trimming.{IsTrimmed, trim-append, trim_between}

-- A byte does not occur.
abbrev pub IsWithout : ℕ → List ℕ → Type 0
IsWithout x [] = Unit {0}
IsWithout x (b ∷ bs) = (b ≢ x) × IsWithout x bs

pub IsWithout-append :
    (x : ℕ) (cs bs : List ℕ) → IsWithout x cs → IsWithout x bs → IsWithout x (cs ++ bs)
IsWithout-append x [] bs h k = k
IsWithout-append x (c ∷ cs) bs h k = (h.0, IsWithout-append x cs bs h.1 k)

-- `fgets` stops behind the end of the line.
pub fgets-append :
    (n : ℕ) (line rest : List ℕ)
    → IsWithout 10 line
    → length line + 1 ≤ n
    → fgets n (line ++ 10 ∷ rest) ≡ (line ++ 10 ∷ [], rest)
unfolding fgets
fgets-append zero line rest h f = absurd (omega arith)
fgets-append (suc n) [] rest h f = refl
fgets-append (suc n) (b ∷ bs) rest h f =
    rw (ne→== b 10 h.0)
      (ap (λ (r : List ℕ × List ℕ). (b ∷ r.0, r.1)) (fgets-append n bs rest h.1 (omega (arith, f))))

pub c_string-all : (s : List ℕ) → IsWithout 0 s → c_string s ≡ s
unfolding c_string
c_string-all [] h = refl
c_string-all (b ∷ bs) h = rw (ne→== b 0 h.0) (ap (◌∷◌ b) (c_string-all bs h.1))

split_at_equals-append :
    (l r : List ℕ) → IsWithout 61 l → split_at_equals (l ++ 61 ∷ r) ≡ some (l, r)
unfolding split_at_equals
split_at_equals-append [] r h = refl
split_at_equals-append (b ∷ bs) r h =
    rw (ne→== b 61 h.0) (rw (split_at_equals-append bs r h.1) refl)

-- An item as a line without its end.
abbrev pub item_line : List ℕ → List ℕ → List ℕ
item_line name content = name ++ 32 ∷ 61 ∷ 32 ∷ content

-- A name and a content that can stand in a line.
pub record IsItem (name content : List ℕ) : Type 0 where
  pub name_trimmed : IsTrimmed name
  pub content_trimmed : IsTrimmed content
  pub no_equals : IsWithout 61 name
  pub no_end : IsWithout 10 (item_line name content)
  pub no_zero : IsWithout 0 (item_line name content)
  pub starts : (c : ℕ) × (cs : List ℕ) × (name ≡ c ∷ cs) × (is_skipped c ≡ false)
  pub short : length (item_line name content) ≤ 498

load_line_split :
    (c : ℕ) (cs l r : List ℕ) (m : ConfigMap)
    → is_skipped c ≡ false
    → split_at_equals (c ∷ cs) ≡ some (l, r)
    → load_line (c ∷ cs) m ≡ insert_item (trim l) (trim r) m
unfolding load_line
load_line_split c cs l r m s e = rw s (rw (e, split_at_equals) refl)

item_parts :
    (name content : List ℕ)
    → item_line name content ++ 10 ∷ [] ≡ (name ++ 32 ∷ []) ++ (61 ∷ 32 ∷ (content ++ 10 ∷ []))
item_parts name content =
    append_assoc name (32 ∷ 61 ∷ 32 ∷ content) (10 ∷ [])
    ∙ sym (append_assoc name (32 ∷ []) (61 ∷ 32 ∷ (content ++ 10 ∷ [])))

-- What `Load` does with the line of an item.
pub load_line_item :
    (name content : List ℕ) (m : ConfigMap)
    → IsItem name content
    → load_line (item_line name content ++ 10 ∷ []) m ≡ insert_item name content m
load_line_item name content m h =
    let (c, cs, n, s) = h.starts in
    let p = ap (λ (k : List ℕ). item_line k content ++ 10 ∷ []) n in
    let e =
      ap split_at_equals (item_parts name content)
      ∙ split_at_equals-append (name ++ 32 ∷ []) (32 ∷ (content ++ 10 ∷ []))
          (IsWithout-append 61 name (32 ∷ []) h.no_equals (omega arith)) in
    ap (λ (k : List ℕ). load_line k m) p
    ∙ load_line_split c (item_line cs content ++ 10 ∷ []) (name ++ 32 ∷ [])
        (32 ∷ (content ++ 10 ∷ [])) m s (sym (ap split_at_equals p) ∙ e)
    ∙ ap₂ (λ (k v : List ℕ). insert_item k v m) (trim-append name 32 h.name_trimmed refl)
        (trim_between content 32 10 h.content_trimmed refl refl)
