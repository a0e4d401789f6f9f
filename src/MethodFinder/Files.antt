-- ===== src/MethodFinder/Files.antt =====
-- The files of a descriptor set.
use grpcreplay.Base.{
  ◌≡◌, refl, ap, ◌∙◌, sym, subst, false, ◌||◌, Bool-cases, inl, inr, List, [], ◌∷◌, ◌++◌, Bytes,
  bytes_key, bytes_eq, bytes_eq_iff, arith, map,
}
use grpcreplay.GoMap.Keys.{in_list, mem-nil}
use grpcreplay.StringSet.{StringSet, new_string_set, has, add}
use grpcreplay.StringSet.Laws.{string_set_membership}
use grpcreplay.MethodFinder.{
  FileDescriptor, FileDescriptors, file, no_files, files, file_name, construct_file_descriptor_set,
  construct_dependencies,
}

-- The names of a file and of all that it imports, directly or not.
unfoldable mutual
  pub tree_names : FileDescriptor → List Bytes
  tree_names (file name dependencies) = name ∷ forest_names dependencies

  pub forest_names : FileDescriptors → List Bytes
  forest_names no_files = []
  forest_names (files fd fds) = tree_names fd ++ forest_names fds

abbrev pub Distinct : List Bytes → Type 0
Distinct [] = Unit
Distinct (x ∷ xs) = (in_list xs x ≡ false) × Distinct xs

pub in_list-append :
    (xs ys : List Bytes) (x : Bytes) → in_list (xs ++ ys) x ≡ (in_list xs x || in_list ys x)
unfolding in_list
in_list-append [] ys x = refl
in_list-append (y ∷ xs) ys x = ground (arith, in_list-append xs ys x)

in_list_one : (y x : Bytes) → in_list (y ∷ []) x ≡ bytes_eq y x
unfolding in_list
in_list_one y x = ground arith

Distinct-snoc :
    (xs : List Bytes) (y : Bytes) → Distinct xs → in_list xs y ≡ false → Distinct (xs ++ y ∷ [])
unfolding in_list
Distinct-snoc [] y h e = (refl, tt)
Distinct-snoc (x ∷ xs) y (hx, h) e = (
  ground (
    arith,
    in_list-append xs (y ∷ []) x,
    in_list_one y x,
    hx,
    e,
    bytes_eq_iff x y,
    bytes_eq_iff y x,
  ),
  Distinct-snoc xs y h (ground (arith, e)),
)

abbrev pub listed : List FileDescriptor → List Bytes
listed fds = map file_name fds

record Inv (set : StringSet) (fds : List FileDescriptor) : Type 0 where
  agrees : (x : Bytes) → has set x ≡ in_list (listed fds) x
  distinct : Distinct (listed fds)

listed-append : (l r : List FileDescriptor) → listed (l ++ r) ≡ listed l ++ listed r
listed-append [] r = refl
listed-append (x ∷ l) r = ap (◌∷◌ (file_name x)) (listed-append l r)

-- A file that is new.
add-Inv :
    (set : StringSet) (fds : List FileDescriptor) (name : Bytes) (dependencies : FileDescriptors)
    → Inv set fds
    → has set name ≡ false
    → Inv (add set name) (fds ++ file name dependencies ∷ [])
add-Inv set fds name dependencies i e =
    let split = listed-append fds (file name dependencies ∷ []) in
    record {
      agrees = λ x. ground (
        arith,
        i.agrees x,
        (string_set_membership set set name x []).0,
        ap (λ l. in_list l x) split,
        in_list-append (listed fds) (name ∷ []) x,
        in_list_one name x,
      );
      distinct =
          subst Distinct (sym split)
            (Distinct-snoc (listed fds) name i.distinct (sym (i.agrees name) ∙ e));
    }

abbrev pub Collected : Type 0
Collected = StringSet × List FileDescriptor

-- What a part of the walk leaves: the invariant, and the names of that part.
abbrev Walked : StringSet → List Bytes → Collected → Type 0
Walked set names r = Inv r.0 r.1 × ((x : Bytes) → has r.0 x ≡ (in_list names x || has set x))

mutual
  unfolding construct_file_descriptor_set construct_dependencies tree_names forest_names in_list

  walk :
      (set : StringSet) (fds : List FileDescriptor) (fd : FileDescriptor)
      → Inv set fds
      → Walked set (tree_names fd) (construct_file_descriptor_set set fds fd)
  walk set fds (file name deps) i = elim (Bool-cases (has set name)) [
    | inl there ↦
        let (inv, all) = walk_all set fds deps i in
        rw there (inv, λ x. ground (arith, all x, there, bytes_eq_iff name x))
    | inr new ↦
        let (inv, all) =
          walk_all (add set name) (fds ++ file name deps ∷ []) deps
            (add-Inv set fds name deps i new) in
        rw new (inv, λ x. ground (arith, all x, (string_set_membership set set name x []).0))
  ]

  walk_all :
      (set : StringSet) (fds : List FileDescriptor) (deps : FileDescriptors)
      → Inv set fds
      → Walked set (forest_names deps) (construct_dependencies set fds deps)
  walk_all set fds no_files i = (i, λ x. refl)
  walk_all set fds (files fd deps) i =
      let r = construct_file_descriptor_set set fds fd in
      let (inv, one) = walk set fds fd i in
      let (inv', all) = walk_all r.0 r.1 deps inv in
      (
        inv',
        λ x. ground (arith, one x, all x, in_list-append (tree_names fd) (forest_names deps) x),
      )

-- Walking a file and its imports from the empty set gives each file of the tree once, by its name,
-- and no other, however often a file is imported; the string set has the same names.
pub construct_file_descriptor_set_lem :
    (fd : FileDescriptor)
    → (r : Collected) × (construct_file_descriptor_set new_string_set [] fd ≡ r)
      × Distinct (listed r.1)
      × ((name : Bytes) → in_list (listed r.1) name ≡ in_list (tree_names fd) name)
      × ((name : Bytes) → has r.0 name ≡ in_list (tree_names fd) name)
unfolding has new_string_set in_list
construct_file_descriptor_set_lem fd =
    let empty : Inv new_string_set [] = record { agrees = mem-nil; distinct = tt } in
    let r = construct_file_descriptor_set new_string_set [] fd in
    let (inv, all) = walk new_string_set [] fd empty in
    (
      r,
      refl,
      inv.distinct,
      λ x. ground (arith, inv.agrees x, all x, mem-nil x),
      λ x. ground (arith, all x, mem-nil x),
    )
