-- ===== src/Node/Properties/Entries.antt =====
-- What the file nifi.properties says of a key, from its entries: getNifiProperties of
-- internal/controller/node/configmap.go.
use nifi_operator.Common.{
  String, Option, none, some, List, [], ◌∷◌, ◌++◌, ◌≡◌, refl, inl, inr, ok, ◌==◌, eq_iff, contains,
  Bool-cases, Option-cases, >>=-eq-ok, if◌then◌else◌, arith, ap,
}
use nifi_operator.OperatorGo.{OperatorGo, PropertiesApi, IsProperties, GetResult}
use nifi_operator.Security.{AuthenticationProvider}
use nifi_operator.Node.{NifiConfigMapBuilder}
use nifi_operator.Node.Properties.Build.{
  nifi_entries, add_all, add_keys, auth_properties, nifi_properties,
}

-- `a` where it is given, and else `b`.
abbrev pub or_else {ℓ} : {A : Type ℓ} → Option A → Option A → Option A
or_else (some a) b = some a
or_else none b = b

-- The value that was added last.
abbrev pub last_value : String → List (String × String) → Option String
last_value k [] = none
last_value k ((j, v) ∷ es) = or_else (last_value k es) (if j == k then some v else none)

or_else_assoc {ℓ} :
    {A : Type ℓ} (a b c : Option A) → or_else (or_else a b) c ≡ or_else a (or_else b c)
or_else_assoc (some a) b c = refl
or_else_assoc none b c = refl

or_else-none {ℓ} : {A : Type ℓ} (a : Option A) → or_else a none ≡ a
or_else-none (some a) = refl
or_else-none none = refl

pub last_value-append :
    (k : String) (es fs : List (String × String))
    → last_value k (es ++ fs) ≡ or_else (last_value k fs) (last_value k es)
last_value-append k [] fs = ground arith
last_value-append k ((j, v) ∷ es) fs =
    rw (last_value-append k es fs)
      (or_else_assoc (last_value k fs) (last_value k es) (if j == k then some v else none))

module _ (P : PropertiesApi) (properties : IsProperties P) where
  get-add_all :
      (p : P.Properties) (es : List (String × String)) (k : String)
      → P.get (add_all P p es) k ≡ or_else (last_value k es) (P.get p k)
  unfolding add_all
  get-add_all p [] k = refl
  get-add_all p ((j, v) ∷ es) k =
      ground (arith, get-add_all (P.add p j v) es k, properties.get-add p j v k)

  -- The loop adds under each key the value that `q` has for it.
  get-add_keys :
      (q p : P.Properties) (ks : List String) (k : String)
      → P.get (add_keys P q p ks) k
        ≡ (if contains ks k then some (elim (P.get q k) [ none ↦ "" | some v ↦ v ]) else P.get p k)
  unfolding add_keys
  get-add_keys q p [] k = refl
  get-add_keys q p (j ∷ ks) k =
      let v : String = elim (P.get q j) [ none ↦ "" | some w ↦ w ] in
      elim (Bool-cases (contains ks k)) [
        | inl e ↦ rw (get-add_keys q (P.add p j v) ks k, e) (ground arith)
        | inr e ↦ elim (Bool-cases (j == k)) [
          | inl t ↦
              let same : j ≡ k = (eq_iff j k).0 t in
              rw (get-add_keys q (P.add p j v) ks k, e, properties.get-add p j v k, t)
                (ap (λ i. some (elim (P.get q i) [ none ↦ "" | some w ↦ w ])) same)
          | inr t ↦ rw (get-add_keys q (P.add p j v) ks k, e, properties.get-add p j v k, t)
        ]
      ]

  get-add_keys_all :
      (q p : P.Properties) (k : String)
      → P.get (add_keys P q p (P.keys q)) k ≡ or_else (P.get q k) (P.get p k)
  get-add_keys_all q p k = elim (Option-cases (P.get q k)) [
    | inl e ↦ rw (get-add_keys q p (P.keys q) k, properties.contains-keys q k, e)
    | inr (v, e) ↦ rw (get-add_keys q p (P.keys q) k, properties.contains-keys q k, e)
  ]

-- What the authenticator's properties say of a key.
abbrev pub authenticated_value : (P : PropertiesApi) → Option P.Properties → String → Option String
authenticated_value P none k = none
authenticated_value P (some q) k = P.get q k

get-added :
    (P : PropertiesApi) (properties : IsProperties P) (es : List (String × String))
    (q : Option P.Properties) (k : String)
    → let p = add_all P P.new_properties es in
      P.get (elim q [ none ↦ p | some q ↦ add_keys P q p (P.keys q) ]) k
      ≡ or_else (authenticated_value P q k) (last_value k es)
get-added P properties es none k =
    rw (get-add_all P properties P.new_properties es k, properties.get-new_properties)
      (or_else-none (last_value k es))
get-added P properties es (some q) k = rw (
  get-add_keys_all P properties q _ k,
  get-add_all P properties P.new_properties es k,
  properties.get-new_properties,
  or_else-none (last_value k es),
)

-- Whatever the cluster, where properties are built and the properties file keeps the last value of
-- each key: the authenticator's properties were given, and a key has the value that they give it,
-- and else the value that was added last under it, and else none.
pub nifi_properties-get :
    (o : OperatorGo) (namespace : String) (P : PropertiesApi) (properties : IsProperties P)
    (get : String → GetResult (Option AuthenticationProvider)) (b : NifiConfigMapBuilder)
    (p : P.Properties)
    → nifi_properties o namespace P get b ≡ ok p
    → (q : Option P.Properties) × (auth_properties P get b ≡ ok q)
      × ((k : String)
          → P.get p k
            ≡ or_else (authenticated_value P q k) (last_value k (nifi_entries o namespace b)))
unfolding nifi_properties
nifi_properties-get o namespace P properties get b p e =
    let (q, given, rest) = >>=-eq-ok (auth_properties P get b) _ e in
    let es = nifi_entries o namespace b in
    let same : _ ≡ p = ap (λ r. elim r [ ok x ↦ x | _ ↦ p ]) rest in
    (q, given, λ k. rw (← same) (get-added P properties es q k))
