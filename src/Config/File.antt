-- ===== src/Config/File.antt =====
-- A file of items, written and loaded again.
use flydragon.Base.{
  ℕ, zero, suc, ◌≤◌, ◌≡◌, refl, sym, ap, ap₂, ==→eq, ◌==◌, Bool-cases, Option-cases, inl, inr, ◌∙◌,
  List, [], ◌∷◌, ◌++◌, Option, some, none, true, arith, length, length-append,
}
use flydragon.Config.{
  ConfigMap, fgets, c_string, insert_item, load_line, load_lines, load, get_string, same_string,
}
use flydragon.Config.Lines.{
  IsWithout-append, IsItem, item_line, fgets-append, c_string-all, load_line_item,
}

-- The file with a line `name = content` for each item.
abbrev pub write_items : ConfigMap → List ℕ
write_items [] = []
write_items ((k, v) ∷ items) = item_line k v ++ (10 ∷ write_items items)

abbrev pub AreItems : ConfigMap → Type 0
AreItems [] = Unit {0}
AreItems ((k, v) ∷ items) = IsItem k v × AreItems items

-- The items one after the other.
abbrev pub insert_items : ConfigMap → ConfigMap → ConfigMap
unfolding insert_item
insert_items [] m = m
insert_items ((k, v) ∷ items) m = insert_items items (insert_item k v m)

-- The first line of a file.
load_lines_step :
    (fuel : ℕ) (b : ℕ) (bs line rest : List ℕ) (m : ConfigMap)
    → fgets 499 (b ∷ bs) ≡ (line, rest)
    → load_lines (suc fuel) (b ∷ bs) m ≡ load_lines fuel rest (load_line (c_string line) m)
unfolding load_lines
load_lines_step fuel b bs line rest m e =
    ap (λ (r : List ℕ × List ℕ). load_lines fuel r.1 (load_line (c_string r.0) m)) e

load_lines_items :
    (fuel : ℕ) (items m : ConfigMap)
    → AreItems items
    → length (write_items items) ≤ fuel
    → load_lines fuel (write_items items) m ≡ insert_items items m
unfolding insert_item
load_lines_items zero [] m h f = unfold load_lines in refl
load_lines_items (suc fuel) [] m h f = unfold load_lines in refl
load_lines_items zero ((k, v) ∷ items) m h f =
    absurd (omega (arith, f, length-append (item_line k v) (10 ∷ write_items items)))
load_lines_items (suc fuel) ((k, v) ∷ items) m h f =
    let i = h.0 in
    let (c, cs, n, s) = i.starts in
    let p = ap (λ (q : List ℕ). item_line q v ++ (10 ∷ write_items items)) n in
    let g =
      fgets-append 499 (item_line k v) (write_items items) i.no_end (omega (arith, i.short)) in
    ap (λ (q : List ℕ). load_lines (suc fuel) q m) p
    ∙ load_lines_step fuel c (item_line cs v ++ (10 ∷ write_items items)) (item_line k v ++ 10 ∷ [])
        (write_items items) m (sym (ap (fgets 499) p) ∙ g)
    ∙ ap (λ (q : List ℕ). load_lines fuel (write_items items) (load_line q m))
        (c_string-all (item_line k v ++ 10 ∷ [])
          (IsWithout-append 0 (item_line k v) (10 ∷ []) i.no_zero (omega arith)))
    ∙ ap (load_lines fuel (write_items items)) (load_line_item k v m i)
    ∙ load_lines_items fuel items (insert_item k v m) h.1
        (omega (arith, f, length-append (item_line k v) (10 ∷ write_items items)))

same_string-eq : (a b : List ℕ) → same_string a b ≡ true → a ≡ b
unfolding same_string
same_string-eq [] [] h = refl
same_string-eq [] (d ∷ ds) h = absurd (cc)
same_string-eq (c ∷ cs) [] h = absurd (cc)
same_string-eq (c ∷ cs) (d ∷ ds) h = elim (Bool-cases (c == d)) [
  | inl e ↦ ap₂ ◌∷◌ (==→eq c d e) (same_string-eq cs ds (sym (rw e refl) ∙ h))
  | inr e ↦ absurd (cc (e, h))
]

-- The first result, or else the second.
abbrev or_else : Option (List ℕ) → Option (List ℕ) → Option (List ℕ)
or_else none b = b
or_else (some a) b = some a

or_else-none : (a : Option (List ℕ)) → or_else a none ≡ a
or_else-none none = refl
or_else-none (some a) = refl

or_else_assoc : (a b c : Option (List ℕ)) → or_else (or_else a b) c ≡ or_else a (or_else b c)
or_else_assoc none b c = refl
or_else_assoc (some a) b c = refl

get_string-append :
    (m n : ConfigMap) (key : List ℕ)
    → get_string (m ++ n) key ≡ or_else (get_string m key) (get_string n key)
unfolding get_string
get_string-append [] n key = refl
get_string-append ((k, v) ∷ m) n key = elim (Bool-cases (same_string k key)) [
  | inl e ↦ rw e refl
  | inr e ↦ rw e (get_string-append m n key)
]

get_string-insert_item :
    (k v : List ℕ) (m : ConfigMap) (key : List ℕ)
    → get_string (insert_item k v m) key ≡ or_else (get_string m key) (get_string ((k, v) ∷ []) key)
unfolding insert_item
get_string-insert_item k v m key = elim (Option-cases (get_string m k)) [
  | inl e ↦ rw (e, insert_item) (get_string-append m ((k, v) ∷ []) key)
  | inr (w, e) ↦
      rw (e, insert_item)
        (elim (Bool-cases (same_string k key)) [
          | inr d ↦ rw d (sym (or_else-none (get_string m key)))
          | inl d ↦
              let found = ap (get_string m) (sym (same_string-eq k key d)) ∙ e in
              found
              ∙ sym (ap (λ (o : Option (List ℕ)). or_else o (get_string ((k, v) ∷ []) key)) found)
        ])
]

get_string-insert_items :
    (items m : ConfigMap) (key : List ℕ)
    → get_string (insert_items items m) key ≡ or_else (get_string m key) (get_string items key)
unfolding get_string insert_item
get_string-insert_items [] m key = sym (or_else-none (get_string m key))
get_string-insert_items ((k, v) ∷ items) m key =
    get_string-insert_items items (insert_item k v m) key
    ∙ ap (λ (o : Option (List ℕ)). or_else o (get_string items key))
        (get_string-insert_item k v m key)
    ∙ or_else_assoc (get_string m key) (get_string ((k, v) ∷ []) key) (get_string items key)
    ∙ ap (or_else (get_string m key)) (sym (get_string-append ((k, v) ∷ []) items key))

-- A file with a line for each item is loaded, and `GetString` finds for every name what the first
-- item of that name holds, or nothing. Names and contents have no blank at either end, no end of
-- line and no zero byte, a name is not empty, has no `=` and does not begin like a line that is left
-- out, and a line has at most 498 bytes before its end.
pub load-write_items :
    (items : ConfigMap) (key : List ℕ)
    → AreItems items
    → (get_string (load (some (write_items items)) []).0 key ≡ get_string items key)
      × ((load (some (write_items items)) []).1 ≡ true)
unfolding load
load-write_items items key h = (
  ap (λ (m : ConfigMap). get_string m key)
        (load_lines_items (length (write_items items)) items [] h (omega arith))
      ∙ get_string-insert_items items [] key,
  refl,
)
