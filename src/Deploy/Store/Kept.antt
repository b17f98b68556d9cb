-- ===== src/Deploy/Store/Kept.antt =====
-- What the files of the directory hold while a record is written, wherever the process stops.
use nuzur_cli.Base.{
  ◌≡◌, refl, sym, ◌∙◌, ◌⊎◌, inl, inr, false, [], ◌∷◌, Option, none, some, All, arith, ap,
  Bool-cases, if◌then◌else◌, subst,
}
use nuzur_cli.Deploy.{Deployment, blank}
use nuzur_cli.Deploy.Store.{
  File, Dir, find, put, remove, file_path, tmp_path, holds, unparsable, SaveError, creating_dir,
  marshaling, writing, renaming, save_deployment, write_back, load_or_create, mutate_deployment,
  proceed, StoreError, unreadable, directory,
}
use nuzur_cli.Text.{Text, equal}
use nuzur_cli.Text.Equal.{equal_refl, equal→eq}

pub find-remove : (a b : Text) (d : Dir) → equal a b ≡ false → find b (remove a d) ≡ find b d
unfolding find remove
find-remove a b [] h = refl
find-remove a b ((n, f) ∷ d) h = elim (Bool-cases (equal n a)) [
  | inl is ↦ rw (is, ap (λ t. equal t b) (equal→eq n a is) ∙ h) (find-remove a b d h)
  | inr is_not ↦ rw is_not (ap (λ o. if equal n b then some f else o) (find-remove a b d h))
]

pub find-put : (a b : Text) (f : File) (d : Dir) → equal a b ≡ false → find b (put a f d) ≡ find b d
unfolding find put
find-put a b f d h = rw (h, find-remove a b d h)

pub find-put_same : (a : Text) (f : File) (d : Dir) → find a (put a f d) ≡ some f
unfolding find put
find-put_same a f d = rw (equal_refl a)

-- A mutation starts from the record that the file holds, or from a blank one if there is no file.
abbrev pub Starts : Option File → Deployment → Type 0
Starts o r = ((o ≡ none) × (r ≡ blank)) ⊎ (o ≡ some (holds r))

pub made_of : {r s : Deployment} → Path (Deployment ⊎ StoreError) (inl r) (inl s) → r ≡ s
made_of {r} h = ap (λ x. elim x [ inl a ↦ a | inr _ ↦ r ]) h

load_or_create-Starts : (o : Option File) (r : Deployment) → load_or_create o ≡ inl r → Starts o r
unfolding load_or_create
load_or_create-Starts none r h = inl (refl, sym (made_of h))
load_or_create-Starts (some (holds s)) r h = inr (ap (λ x. some (holds x)) (made_of h))
load_or_create-Starts (some unparsable) r h = ground (arith, h)
load_or_create-Starts (some unreadable) r h = ground (arith, h)
load_or_create-Starts (some directory) r h = ground (arith, h)

-- A file is as it was, or it is the one of the record and holds what the mutation makes of the record that was there.
abbrev pub OldOrNew : Dir → Text → (Deployment → Deployment) → Text → Dir → Type 0
OldOrNew d id fn name m =
    (find name m ≡ find name d)
    ⊎ ((r : Deployment) × ((name ≡ file_path id)
          × (Starts (find (file_path id) d) r
              × (find name m ≡ some (holds (record (fn r) { id = id }))))))

module _ (id : Text) (fn : Deployment → Deployment) (d : Dir) (name : Text)
    (other : equal (tmp_path id) name ≡ false) where
  replaced :
      (r : Deployment)
      → load_or_create (find (file_path id) d) ≡ inl r
      → OldOrNew d id fn name
          (put (file_path id) (holds (record (fn r) { id = id })) (remove (tmp_path id) d))
  replaced r h =
      let made = record (fn r) { id = id } in
      elim (Bool-cases (equal (file_path id) name)) [
        | inl is ↦
            let same = equal→eq (file_path id) name is in
            inr (
              r,
              (
                sym same,
                (
                  load_or_create-Starts (find (file_path id) d) r h,
                  subst
                      (λ n.
                        find n (put (file_path id) (holds made) (remove (tmp_path id) d))
                        ≡ some (holds made))
                      same (find-put_same (file_path id) (holds made) (remove (tmp_path id) d)),
                ),
              ),
            )
        | inr is_not ↦ inl (
            find-put (file_path id) name (holds made) (remove (tmp_path id) d) is_not
            ∙ find-remove (tmp_path id) name d other)
      ]

  proceed-OldOrNew :
      (fault : Option SaveError) (l : Deployment ⊎ StoreError)
      → load_or_create (find (file_path id) d) ≡ l
      → All (OldOrNew d id fn name) (proceed id fn fault d l).moments
  unfolding proceed write_back save_deployment
  proceed-OldOrNew fault (inr e) h = tt
  proceed-OldOrNew (some creating_dir) (inl r) h = tt
  proceed-OldOrNew (some marshaling) (inl r) h = tt
  proceed-OldOrNew (some writing) (inl r) h =
      (inl (find-put (tmp_path id) name unparsable d other), tt)
  proceed-OldOrNew (some renaming) (inl r) h =
      let made = record (fn r) { id = id } in
      (
        inl (find-put (tmp_path id) name unparsable d other),
        (
          inl (find-put (tmp_path id) name (holds made) d other),
          (inl (find-remove (tmp_path id) name d other), tt),
        ),
      )
  proceed-OldOrNew none (inl r) h =
      let made = record (fn r) { id = id } in
      (
        inl (find-put (tmp_path id) name unparsable d other),
        (inl (find-put (tmp_path id) name (holds made) d other), (replaced r h, tt)),
      )

-- Wherever a mutation stops, a file other than its temporary one is as it was, or it is the file of the record, the record was missing or could be read and parsed, and the file holds what the function made of it, under the id of the file.
pub mutate_deployment-OldOrNew :
    (id : Text) (fn : Deployment → Deployment) (fault : Option SaveError) (d : Dir) (name : Text)
    → equal (tmp_path id) name ≡ false
    → All (OldOrNew d id fn name) (mutate_deployment id (some fn) fault d).moments
unfolding mutate_deployment
mutate_deployment-OldOrNew id fn fault d name other =
    proceed-OldOrNew id fn d name other fault (load_or_create (find (file_path id) d)) refl
