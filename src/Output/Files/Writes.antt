-- ===== src/Output/Files/Writes.antt =====
-- output.cpp, `dump_all`: how the names of the files that calls write come together.
use hardware_assisted_game_s.Base.{
  ◌≡◌, refl, ap, sym, ◌∙◌, List, [], ◌∷◌, ◌++◌, map, append_assoc, append-nil, Bytes, arith,
}
use hardware_assisted_game_s.Output.Files.{Files, Done, for_each, ◌>>◌}
use hardware_assisted_game_s.Process.{Outcome, returned, thrown, Failure, M, continue}

abbrev pub names : Files → List Bytes
names files = map (λ (f : Bytes × Bytes). f.0) files

-- A call with this outcome, which writes files of these names.
abbrev pub Leaves : {World : Type 0} → M (Files × World) Done → Outcome Done → List Bytes → Type 0
Leaves {World} act o ns =
    (files : Files) (w : World)
    → ((act (files, w)).0 ≡ o) × (names (act (files, w)).1.0 ≡ names files ++ ns)

abbrev pub Writes : {World : Type 0} → M (Files × World) Done → List Bytes → Type 0
Writes act ns = Leaves act (returned tt) ns

pub names-append : (fs gs : Files) → names (fs ++ gs) ≡ names fs ++ names gs
names-append [] gs = refl
names-append (f ∷ fs) gs = ap (λ ns. f.0 ∷ ns) (names-append fs gs)

pub after-Writes :
    {World : Type 0} (before : List Bytes) (r : Outcome Done × (Files × World))
    (b : M (Files × World) Done) (o : Outcome Done) (ns ms : List Bytes)
    → r.0 ≡ returned tt
    → names r.1.0 ≡ before ++ ns
    → Leaves b o ms
    → ((continue (λ (done : Done). b) r).0 ≡ o)
      × (names (continue (λ (done : Done). b) r).1.0 ≡ before ++ (ns ++ ms))
after-Writes before (thrown e, (files, w)) b o ns ms bad n vb = absurd (ground arith)
after-Writes before (returned tt, (files, w)) b o ns ms good n vb =
    let later = vb files w in (later.0, later.1 ∙ ap (λ xs. xs ++ ms) n ∙ append_assoc before ns ms)

pub after-Fails :
    {World : Type 0} (r : Outcome Done × (Files × World)) (b : M (Files × World) Done) (e : Failure)
    → r.0 ≡ thrown e
    → ((continue (λ (done : Done). b) r).0 ≡ thrown e)
      × ((continue (λ (done : Done). b) r).1.0 ≡ r.1.0)
after-Fails (returned done, fw) b e bad = absurd (ground arith)
after-Fails (thrown f, fw) b e same = ground arith

pub then-Leaves :
    {World : Type 0} (a b : M (Files × World) Done) (o : Outcome Done) (ns ms : List Bytes)
    → Writes a ns
    → Leaves b o ms
    → Leaves (a >> b) o (ns ++ ms)
then-Leaves a b o ns ms va vb files w =
    after-Writes (names files) (a (files, w)) b o ns ms (va files w).0 (va files w).1 vb

pub then-Fails :
    {World : Type 0} (a b : M (Files × World) Done) (e : Failure) (ns : List Bytes)
    → Leaves a (thrown e) ns
    → Leaves (a >> b) (thrown e) ns
then-Fails a b e ns va files w =
    let failed = after-Fails (a (files, w)) b e (va files w).0 in
    (failed.0, ap names failed.1 ∙ (va files w).1)

pub for_each-nil :
    {World A : Type 0} (act : A → M (Files × World) Done) → Writes (for_each act []) []
unfolding for_each
for_each-nil act files w = (refl, sym (append-nil (names files)))

pub for_each-Leaves :
    {World A : Type 0} (act : A → M (Files × World) Done) (a : A) (as' : List A) (o : Outcome Done)
    (ns ms : List Bytes)
    → Writes (act a) ns
    → Leaves (for_each act as') o ms
    → Leaves (for_each act (a ∷ as')) o (ns ++ ms)
unfolding for_each
for_each-Leaves act a as' o ns ms va vas files w =
    then-Leaves (act a) (for_each act as') o ns ms va vas files w

pub for_each-Fails :
    {World A : Type 0} (act : A → M (Files × World) Done) (a : A) (as' : List A) (e : Failure)
    (ns : List Bytes)
    → Leaves (act a) (thrown e) ns
    → Leaves (for_each act (a ∷ as')) (thrown e) ns
unfolding for_each
for_each-Fails act a as' e ns va files w = then-Fails (act a) (for_each act as') e ns va files w
