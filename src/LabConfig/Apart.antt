-- ===== src/LabConfig/Apart.antt =====
-- scripts/lab_config.py: what one round of `_catalog_from_index` keeps true of the labs so far.
use yocto_qemu_edu_lab.Common.{
  String, str_eq, eq_iff, member, insert, ◌≡◌, sym, ap, Bool, true, false, ◌&&◌, ◌||◌, not, List,
  [], ◌∷◌, arith, ok, >>=-eq-ok, in_turn, in_turn-ok, ensure-true, result_or,
}
use yocto_qemu_edu_lab.Json.{Fields}
use yocto_qemu_edu_lab.LabConfig.Catalog.{Gathered, places, place_checks, add_lab}

-- a build directory, a development directory and a machine
abbrev pub Places : Type 0
Places = String × String × String

-- no directory of one is a directory of the other, and the machines differ
abbrev pub are_apart : Places → Places → Bool
are_apart (dir, sdk, machine) (dir', sdk', machine') =
    not (str_eq dir dir')
    && not (str_eq dir sdk')
    && not (str_eq sdk dir')
    && not (str_eq sdk sdk')
    && not (str_eq machine machine')

abbrev pub among : Places → Gathered → Bool
among (dir, sdk, machine) g =
    member dir g.build_dirs && member sdk g.build_dirs && member machine g.machines

abbrev pub outside : Places → Gathered → Bool
outside (dir, sdk, machine) g =
    not (member dir g.build_dirs)
    && not (member sdk g.build_dirs)
    && not (member machine g.machines)

member-apart :
    (x y : String) (xs : List String)
    → member x xs ≡ true
    → member y xs ≡ false
    → (str_eq x y ≡ false) × (str_eq y x ≡ false)
member-apart x y [] h k = cc
member-apart x y (z ∷ zs) h k =
    ground (arith, eq_iff x y, eq_iff y x, eq_iff x z, eq_iff y z, member-apart x y zs)

pub among-are_apart :
    (p q : Places) (g : Gathered)
    → among p g ≡ true
    → outside q g ≡ true
    → (are_apart p q ≡ true) × (are_apart q p ≡ true)
among-are_apart (dir, sdk, machine) (dir', sdk', machine') g h k = ground (
  arith,
  member-apart dir dir' g.build_dirs,
  member-apart dir sdk' g.build_dirs,
  member-apart sdk dir' g.build_dirs,
  member-apart sdk sdk' g.build_dirs,
  member-apart machine machine' g.machines,
)

-- What a successful round has seen of the lab that it adds.
pub record Added (g next : Gathered) (i : String) (lab : Fields) (digest : String) : Type 0 where
  pub at : Places
  pub placed : places lab ≡ ok at
  pub new : outside at g ≡ true
  pub within : among at next ≡ true
  pub keeps : (p : Places) → among p g ≡ true → among p next ≡ true
  pub manifests : next.manifests ≡ insert i lab g.manifests
  pub digests : next.digests ≡ insert i digest g.digests

outside-intro :
    (g : Gathered) (dir sdk machine : String)
    → not (member dir g.build_dirs) ≡ true
    → not (member sdk g.build_dirs || str_eq sdk dir) ≡ true
    → not (member machine g.machines) ≡ true
    → outside (dir, sdk, machine) g ≡ true
outside-intro g dir sdk machine h k l = ground arith

grown_within :
    (g next : Gathered) (dir sdk machine : String)
    → next.build_dirs ≡ sdk ∷ dir ∷ g.build_dirs
    → next.machines ≡ machine ∷ g.machines
    → among (dir, sdk, machine) next ≡ true
grown_within g next dir sdk machine h k =
    rw (h, k) (ground (arith, eq_iff dir dir, eq_iff sdk sdk, eq_iff machine machine))

grown_keeps :
    (g next : Gathered) (dir sdk machine : String) (p : Places)
    → next.build_dirs ≡ sdk ∷ dir ∷ g.build_dirs
    → next.machines ≡ machine ∷ g.machines
    → among p g ≡ true
    → among p next ≡ true
grown_keeps g next dir sdk machine (d, s, m) h k old = rw (h, k) (ground arith)

pub add_lab-Added :
    (g : Gathered) (i : String) (lab : Fields) (digest : String) {next : Gathered}
    → add_lab g i lab digest ≡ ok next
    → Added g next i lab digest
unfolding add_lab
add_lab-Added g i lab digest {next} h =
    let ((dir, sdk, machine), placed, h1) = >>=-eq-ok (places lab) _ h in
    let (_, fine, h2) = >>=-eq-ok (in_turn (place_checks g dir sdk machine)) _ h1 in
    let (new_dir, (new_sdk, (new_machine, _))) = in_turn-ok (place_checks g dir sdk machine) fine in
    let made = ap (result_or next) h2 in
    let dirs : next.build_dirs ≡ sdk ∷ dir ∷ g.build_dirs = sym (ap (λ n. n.build_dirs) made) in
    let machines : next.machines ≡ machine ∷ g.machines = sym (ap (λ n. n.machines) made) in
    record {
      at = (dir, sdk, machine);
      placed = placed;
      new =
          outside-intro g dir sdk machine (ensure-true _ _ new_dir) (ensure-true _ _ new_sdk)
            (ensure-true _ _ new_machine);
      within = grown_within g next dir sdk machine dirs machines;
      keeps = λ p. grown_keeps g next dir sdk machine p dirs machines;
      manifests = sym (ap (λ n. n.manifests) made);
      digests = sym (ap (λ n. n.digests) made);
    }
