-- ===== src/Routes/Images/Removed.antt =====
-- What removals do to the rows, the objects and the caches.
use pichost.Common.{
  ℕ, ◌≡◌, refl, ◌∙◌, subst, String, List, [], ◌∷◌, Option, none, some, ok, err, Bool, true, false,
  not, ◌&&◌, ◌||◌, arith, select, inl, inr, Bool-cases, Option-cases,
}
use pichost.Prog.{run}
use pichost.Prog.Laws.{run->>=_elim}
use pichost.Storage.{Backend}
use pichost.Storage.Router.{StorageRouter, for_backend}
use pichost.Upload.{panicked}
use pichost.Routes.Images.{Target, Call, World, Object, exec, remove_object, gone, is_at}
use pichost.Routes.Images.Removal.{cleanup_storage_files, cleanup_all}

module _ {A : Type 0} where
  pub select-gone :
      (p q : A → Bool)
      → ((x : A) → p x ≡ true → q x ≡ false)
      → (xs : List A) → select p (gone q xs) ≡ select p xs
  select-gone p q f [] = refl
  select-gone p q f (x ∷ xs) = ground (arith, f x, select-gone p q f xs)

-- The two worlds differ in objects that fail the test `p`, at most.
pub record Kept (p : Object → Bool) (w w' : World) : Type 0 where
  pub images : w'.images ≡ w.images
  pub categories : w'.categories ≡ w.categories
  pub metas : w'.metas ≡ w.metas
  pub blobs : w'.blobs ≡ w.blobs
  pub objects : select p w'.objects ≡ select p w.objects

pub Kept-refl : (p : Object → Bool) (w : World) → Kept p w w
Kept-refl p w = record {
  images = refl;
  categories = refl;
  metas = refl;
  blobs = refl;
  objects = refl;
}

Kept-trans : (p : Object → Bool) (u v w : World) → Kept p u v → Kept p v w → Kept p u w
Kept-trans p u v w h k = record {
  images = k.images ∙ h.images;
  categories = k.categories ∙ h.categories;
  metas = k.metas ∙ h.metas;
  blobs = k.blobs ∙ h.blobs;
  objects = k.objects ∙ h.objects;
}

abbrev pub at_some : ℕ → Option String → Object → Bool
at_some n none o = false
at_some n (some k) o = is_at n k o

-- The objects that a row refers to, at a place.
abbrev pub is_file : ℕ → Target → Object → Bool
is_file n t o = is_at n t.storage_key o || at_some n t.thumbnail_key o || at_some n t.webp_key o

module _ (place : Backend → ℕ) (router : StorageRouter) where
  abbrev pub is_file_of : Target → Object → Bool
  is_file_of t o = elim (for_backend router t.storage_backend) [
    | none ↦ false
    | some b ↦ is_file (place b) t o
  ]

  module _ (down : Call → Bool) where
    removed-Kept :
        (p : Object → Bool) (b : Backend) (k : String) (w : World)
        → ((o : Object) → p o ≡ true → is_at (place b) k o ≡ false)
        → Kept p w (exec place down (remove_object b k) w).1
    unfolding exec
    removed-Kept p b k w h = elim (Bool-cases (down (remove_object b k))) [
      | inl e ↦ rw e (Kept-refl p w)
      | inr e ↦ rw e (record {
        images = refl;
        categories = refl;
        metas = refl;
        blobs = refl;
        objects = select-gone p (is_at (place b) k) h w.objects;
      })
    ]

    abbrev pub drop_object : Backend → String → World → World
    drop_object b k w = (exec place down (remove_object b k) w).1

    abbrev pub drop_some : Backend → Option String → World → World
    drop_some b none w = w
    drop_some b (some k) w = drop_object b k w

    dropped-Kept :
        (p : Object → Bool) (b : Backend) (o : Option String) (w : World)
        → ((x : Object) → p x ≡ true → at_some (place b) o x ≡ false)
        → Kept p w (drop_some b o w)
    dropped-Kept p b none w h = Kept-refl p w
    dropped-Kept p b (some k) w h = removed-Kept p b k w h

    abbrev pub drop_files : Backend → Target → World → World
    drop_files b t w =
        drop_some b t.webp_key (drop_some b t.thumbnail_key (drop_object b t.storage_key w))

    files-Kept :
        (p : Object → Bool) (b : Backend) (t : Target) (w : World)
        → ((x : Object) → p x ≡ true → is_file (place b) t x ≡ false)
        → Kept p w (drop_files b t w)
    files-Kept p b t w h =
        let w1 = drop_object b t.storage_key w in
        let w2 = drop_some b t.thumbnail_key w1 in
        Kept-trans p w w1 (drop_files b t w)
          (removed-Kept p b t.storage_key w (λ x e. ground (arith, h x e)))
          (Kept-trans p w1 w2 (drop_files b t w)
            (dropped-Kept p b t.thumbnail_key w1 (λ x e. ground (arith, h x e)))
            (dropped-Kept p b t.webp_key w2 (λ x e. ground (arith, h x e))))

    drop_run :
        (b : Backend) (sk sb : String) (tk wk : Option String) (w : World)
        → let t : Target = record {
          storage_key = sk;
          storage_backend = sb;
          thumbnail_key = tk;
          webp_key = wk;
        } in
          for_backend router sb ≡ some b
          → run (exec place down) (cleanup_storage_files router t) w ≡ (ok tt, drop_files b t w)
    unfolding cleanup_storage_files run
    drop_run b sk sb none none w e = rw e refl
    drop_run b sk sb none (some k) w e = rw e refl
    drop_run b sk sb (some j) none w e = rw e refl
    drop_run b sk sb (some j) (some k) w e = rw e refl

    -- A removal of files that finds no backend panics, and changes nothing.
    pub cleanup_panics :
        (t : Target) (w : World)
        → for_backend router t.storage_backend ≡ none
        → run (exec place down) (cleanup_storage_files router t) w ≡ (err panicked, w)
    unfolding cleanup_storage_files run
    cleanup_panics t w e = rw e refl

    pub cleanup_lem :
        (t : Target) (b : Backend) (w : World)
        → for_backend router t.storage_backend ≡ some b
        → run (exec place down) (cleanup_storage_files router t) w ≡ (ok tt, drop_files b t w)
    cleanup_lem t b w e = drop_run b t.storage_key t.storage_backend t.thumbnail_key t.webp_key w e

    -- Whatever fails, only files of the row go.
    pub cleanup-Kept :
        (p : Object → Bool) (t : Target) (w : World)
        → ((o : Object) → p o ≡ true → is_file_of t o ≡ false)
        → Kept p w (run (exec place down) (cleanup_storage_files router t) w).1
    cleanup-Kept p t w h = elim (Option-cases (for_backend router t.storage_backend)) [
      | inl e ↦ rw (cleanup_panics t w e) (Kept-refl p w)
      | inr (b, e) ↦ rw (cleanup_lem t b w e) (
          files-Kept p b t w (λ o q.
            subst (λ m. elim m [ none ↦ false | some c ↦ is_file (place c) t o ] ≡ false) e
              (h o q)))
    ]

    abbrev pub no_file : List Target → Object → Bool
    no_file [] o = true
    no_file (t ∷ ts) o = not (is_file_of t o) && no_file ts o

    pub cleanup_all-Kept :
        (p : Object → Bool) (ts : List Target) (w : World)
        → ((o : Object) → p o ≡ true → no_file ts o ≡ true)
        → Kept p w (run (exec place down) (cleanup_all router ts) w).1
    unfolding cleanup_all run
    cleanup_all-Kept p [] w h = Kept-refl p w
    cleanup_all-Kept p (t ∷ ts) w h =
        let one = cleanup-Kept p t w (λ o e. ground (arith, h o e)) in
        run->>=_elim (exec place down) (λ r. Kept p w r.1) (cleanup_storage_files router t)
          (λ _. cleanup_all router ts) w (λ x d e. subst (λ r. Kept p w r.1) e one)
          (λ a d e.
            Kept-trans p w d _ (subst (λ r. Kept p w r.1) e one)
              (cleanup_all-Kept p ts d (λ o q. ground (arith, h o q))))
