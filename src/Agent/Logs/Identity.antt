-- ===== src/Agent/Logs/Identity.antt =====
-- The resolver of the agent: which id a name has, and which identity an id stands for.
use sentinalysis.Base.{
  Bool-cases, List, Option, Text, [], ap, arith, if◌then◌else◌, inl, inr, none, refl, some, sym,
  text_eq, text_eq_iff, ℕ, ◌<◌, ◌==◌, ◌∙◌, ◌∷◌, ◌≡◌, ◌≢◌, ◌⊎◌,
}
use sentinalysis.Base.Dict.{Dict, insert, lookup, lookup-insert}
use sentinalysis.Agent.Logs.{
  AgentServiceResolver, ById, ServiceMeta, find_id, known_or_new, meta_of, new_resolver, resolve,
}

-- Each id was drawn, and the identity behind a name's id has that name.
pub record IsValid (new_v4 : ℕ → ℕ) (r : AgentServiceResolver) : Type 0 where
  pub was_drawn :
      (name : Text) (id : ℕ)
      → lookup name r.by_name ≡ some id
      → (n : ℕ) × (n < r.drawn) × (id ≡ new_v4 n)
  pub names_back :
      (name : Text) (id : ℕ)
      → lookup name r.by_name ≡ some id
      → (meta : ServiceMeta) × (meta_of r id ≡ some meta) × (meta.name ≡ name)

-- No id is drawn twice.
abbrev pub Injective : (ℕ → ℕ) → Type 0
Injective f = (n m : ℕ) → f n ≡ f m → n ≡ m

pub new_resolver-IsValid : (new_v4 : ℕ → ℕ) → IsValid new_v4 new_resolver
unfolding lookup
new_resolver-IsValid new_v4 = record {
  was_drawn = λ name id h. absurd (cc);
  names_back = λ name id h. absurd (cc);
}

find_id-same : (id : ℕ) (meta : ServiceMeta) (m : ById) → find_id id ((id, meta) ∷ m) ≡ some meta
unfolding find_id
find_id-same id meta m = ground arith

find_id-other :
    (id other : ℕ) (meta : ServiceMeta) (m : ById)
    → id ≢ other
    → find_id id ((other, meta) ∷ m) ≡ find_id id m
unfolding find_id
find_id-other id other meta m h = ground arith

-- In a valid resolver an id belongs to one name.
pub names_apart :
    (new_v4 : ℕ → ℕ) (r : AgentServiceResolver) (a b : Text) (id : ℕ)
    → IsValid new_v4 r
    → lookup a r.by_name ≡ some id
    → lookup b r.by_name ≡ some id
    → a ≡ b
names_apart new_v4 r a b id v h k =
    let (m, found_m, is_a) = v.names_back a id h in
    let (n, found_n, is_b) = v.names_back b id k in
    let same : m ≡ n = cc in sym is_a ∙ ap (λ (meta : ServiceMeta). meta.name) same ∙ is_b

-- The identity behind an id that a name has, once `meta` is recorded under `id`.
after_record :
    (new_v4 : ℕ → ℕ) (r : AgentServiceResolver) (meta : ServiceMeta) (id : ℕ) (name : Text)
    (other : ℕ)
    → (other ≡ id → name ≡ meta.name)
    → (other ≢ id → (m : ServiceMeta) × (find_id other r.by_id ≡ some m) × (m.name ≡ name))
    → (m : ServiceMeta) × (find_id other ((id, meta) ∷ r.by_id) ≡ some m) × (m.name ≡ name)
after_record new_v4 r meta id name other same before = elim (Bool-cases (other == id)) [
  | inl e ↦
      let equal : other ≡ id = ground arith in
      (meta, rw equal (find_id-same id meta r.by_id), sym (same equal))
  | inr e ↦
      let apart : other ≢ id = λ h. absurd (ground arith) in
      let (m, found, named) = before apart in
      (m, find_id-other other id meta r.by_id apart ∙ found, named)
]

-- A name of the grown map is the new one, with the new id, or an old one with its old id.
after_insert :
    (name new_name : Text) (id new_id : ℕ) (m : Dict ℕ)
    → lookup name (insert new_name new_id m) ≡ some id
    → ((name ≡ new_name) × (id ≡ new_id)) ⊎ (lookup name m ≡ some id)
after_insert name new_name id new_id m h =
    let read = sym (lookup-insert new_name name new_id m) ∙ h in
    elim (Bool-cases (text_eq new_name name)) [
      | inl e ↦
          let answer : some new_id ≡ some id =
            sym (ap (λ b. if b then some new_id else lookup name m) e) ∙ read in
          inl (sym ((text_eq_iff new_name name).0 e), cc)
      | inr e ↦ inr (sym (ap (λ b. if b then some new_id else lookup name m) e) ∙ read)
    ]

known_or_new-IsValid :
    (new_v4 : ℕ → ℕ) (r : AgentServiceResolver) (meta : ServiceMeta) (hit : Option ℕ)
    → Injective new_v4
    → IsValid new_v4 r
    → lookup meta.name r.by_name ≡ hit
    → IsValid new_v4 (known_or_new new_v4 r meta hit).0
unfolding meta_of
known_or_new-IsValid new_v4 r meta (some id) inj v h = record {
  was_drawn = v.was_drawn;
  names_back = λ name other k.
      after_record new_v4 r meta id name other
        (λ e. names_apart new_v4 r name meta.name id v (k ∙ ap some e) h)
        (λ apart. v.names_back name other k);
}
known_or_new-IsValid new_v4 r meta none inj v h = record {
  was_drawn = λ name other k.
      elim (after_insert name meta.name other (new_v4 r.drawn) r.by_name k) [
        | inl (same_name, same_id) ↦ (r.drawn, omega arith, same_id)
        | inr old ↦
            let (n, below, is_drawn) = v.was_drawn name other old in
            (n, omega (arith, below), is_drawn)
      ];
  names_back = λ name other k.
      elim (after_insert name meta.name other (new_v4 r.drawn) r.by_name k) [
        | inl (same_name, same_id) ↦
            after_record new_v4 r meta (new_v4 r.drawn) name other (λ e. same_name)
              (λ apart. absurd (apart same_id))
        | inr old ↦
            let (n, below, is_drawn) = v.was_drawn name other old in
            after_record new_v4 r meta (new_v4 r.drawn) name other
              (λ e. absurd (omega (arith, below, inj n r.drawn (sym is_drawn ∙ e))))
              (λ apart. v.names_back name other old)
      ];
}

resolve-IsValid :
    (new_v4 : ℕ → ℕ) (r : AgentServiceResolver) (meta : ServiceMeta)
    → Injective new_v4
    → IsValid new_v4 r
    → IsValid new_v4 (resolve new_v4 r meta).0
unfolding resolve
resolve-IsValid new_v4 r meta inj v = known_or_new-IsValid new_v4 r meta _ inj v refl

-- The resolver after the lines of a run.
unfoldable pub resolve_all :
    (ℕ → ℕ) → List ServiceMeta → AgentServiceResolver → AgentServiceResolver
unfolding resolve
resolve_all new_v4 [] r = r
resolve_all new_v4 (meta ∷ metas) r = resolve_all new_v4 metas (resolve new_v4 r meta).0

-- From a valid resolver, and with ids of which none is drawn twice, resolving any services leaves a
-- valid one: the id of each name was drawn, and the identity recorded behind it has that name.
pub resolve_all-IsValid :
    (new_v4 : ℕ → ℕ) (metas : List ServiceMeta) (r : AgentServiceResolver)
    → Injective new_v4
    → IsValid new_v4 r
    → IsValid new_v4 (resolve_all new_v4 metas r)
unfolding resolve_all
resolve_all-IsValid new_v4 [] r inj v = v
resolve_all-IsValid new_v4 (meta ∷ metas) r inj v =
    resolve_all-IsValid new_v4 metas (resolve new_v4 r meta).0 inj
      (resolve-IsValid new_v4 r meta inj v)

-- An answered id stands for the identity asked for.
known_or_new-meta :
    (new_v4 : ℕ → ℕ) (r : AgentServiceResolver) (meta : ServiceMeta) (hit : Option ℕ)
    → meta_of (known_or_new new_v4 r meta hit).0 (known_or_new new_v4 r meta hit).1 ≡ some meta
unfolding meta_of
known_or_new-meta new_v4 r meta (some id) = find_id-same id meta r.by_id
known_or_new-meta new_v4 r meta none = find_id-same (new_v4 r.drawn) meta r.by_id

pub meta_of-resolve :
    (new_v4 : ℕ → ℕ) (r : AgentServiceResolver) (meta : ServiceMeta)
    → meta_of (resolve new_v4 r meta).0 (resolve new_v4 r meta).1 ≡ some meta
unfolding resolve
meta_of-resolve new_v4 r meta = known_or_new-meta new_v4 r meta (lookup meta.name r.by_name)
