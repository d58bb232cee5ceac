-- ===== src/Tenancy/Access.antt =====
-- `assertTenantAccess` against a description of what a member may touch.
use mathlib.Core.Option.{some-injective}
use shop_os.Common.{
  subst, sym, ◌∙◌, ◌≢◌, ℕ, ◌≡◌, refl, ◌↔◌, ◌⊎◌, inl, inr, true, false, Option, none, some, arith,
  Memᴰ, has-mem, ℕ_discrete,
}
use shop_os.Result.{ok, err, access_denied, permission_denied, organization_denied}
use shop_os.Tenancy.Defs.{
  Permission, TenantContext, TenantOwnedResource, has_permission, has_id, selects_other,
  assert_location, assert_tenant_access, Permission-discrete,
}

-- A location is within reach: the organization is open to the member, or the location is listed.
abbrev Reaches : TenantContext → ℕ → Type 0
Reaches context location =
    (context.organization_wide_location_access ≡ true) ⊎ Memᴰ location context.allowed_location_ids

-- A member at `context` may use `permission` on `resource`: the permission is granted, the resource
-- is of the same organization, and its location, if any, is the selected one, if any, and in reach.
pub record Allowed (context : TenantContext) (resource : TenantOwnedResource)
    (permission : Permission) : Type 0 where
  pub granted : Memᴰ permission context.permissions
  same_organization : resource.organization_id ≡ context.organization_id
  at_selected :
      (l s : ℕ) → resource.location_id ≡ some l → context.selected_location_id ≡ some s → l ≡ s
  in_reach : (l : ℕ) → resource.location_id ≡ some l → Reaches context l

-- With the Boolean searches as variables, the checks pass exactly under their conditions.
assert_location-ok :
    (context : TenantContext) (location : ℕ)
    → (assert_location context (some location) ≡ ok tt) ↔ (
        (selects_other context.selected_location_id location ≡ false)
        × ((context.organization_wide_location_access ≡ true)
            ⊎ (has_id location context.allowed_location_ids ≡ true)))
unfolding assert_location
assert_location-ok context location = (λ h. ground arith, λ h. ground arith)

selects_other-false :
    (selected : Option ℕ) (l : ℕ)
    → (selects_other selected l ≡ false) ↔ ((s : ℕ) → selected ≡ some s → l ≡ s)
selects_other-false none l = (λ _ s e. cc, λ _. refl)
selects_other-false (some s) l = (λ h t e. ground arith, λ h. ground (arith, h s))

assert_tenant_access-ok :
    (context : TenantContext) (resource : TenantOwnedResource) (p : Permission)
    → (assert_tenant_access context resource p ≡ ok tt) ↔ (
        (has_permission p context.permissions ≡ true)
        × (resource.organization_id ≡ context.organization_id)
        × (assert_location context resource.location_id ≡ ok tt))
unfolding assert_tenant_access
assert_tenant_access-ok context resource p = (λ h. ground arith, λ h. ground arith)

abbrev AtLocation : TenantContext → Option ℕ → Type 0
AtLocation context location =
    ((l s : ℕ) → location ≡ some l → context.selected_location_id ≡ some s → l ≡ s)
    × ((l : ℕ) → location ≡ some l → Reaches context l)

AtLocation-iff :
    (context : TenantContext) (location : Option ℕ)
    → (assert_location context location ≡ ok tt) ↔ AtLocation context location
AtLocation-iff context none = (λ _. (λ l s e. cc, λ l e. cc), λ _. unfold assert_location in refl)
AtLocation-iff context (some location) = (
  λ h.
      let (selected, reach) = (assert_location-ok context location).0 h in
      (
        λ l s e t. some-injective _ _ (sym e) ∙ (selects_other-false _ location).0 selected s t,
        λ l e. subst (Reaches context) (some-injective _ _ e) (reaches reach),
      ),
  λ h. (assert_location-ok context location).1 (
    (selects_other-false _ location).1 (λ s. h.0 location s refl),
    unreaches (h.1 location refl),
  ),
)
  where
    member :
        (has_id location context.allowed_location_ids ≡ true)
        ↔ Memᴰ location context.allowed_location_ids
    member = has-mem ℕ_discrete location context.allowed_location_ids

    reaches :
        (context.organization_wide_location_access ≡ true)
          ⊎ (has_id location context.allowed_location_ids ≡ true)
        → Reaches context location
    reaches (inl w) = inl w
    reaches (inr m) = inr (member.0 m)

    unreaches :
        Reaches context location
        → (context.organization_wide_location_access ≡ true)
          ⊎ (has_id location context.allowed_location_ids ≡ true)
    unreaches (inl w) = inl w
    unreaches (inr m) = inr (member.1 m)

-- assertTenantAccess returns exactly when the member has the permission, the row is of the
-- organization of the context, and its location, if it has one, is the selected one where one is
-- selected, and in the member's reach.
pub assert_tenant_access_iff :
    (context : TenantContext) (resource : TenantOwnedResource) (permission : Permission)
    → (assert_tenant_access context resource permission ≡ ok tt)
      ↔ Allowed context resource permission
assert_tenant_access_iff context resource permission = (
  λ h.
      let (granted, same, placed) = (assert_tenant_access-ok context resource permission).0 h in
      let (selected, reach) = (AtLocation-iff context resource.location_id).0 placed in
      record {
        granted = member.0 granted;
        same_organization = same;
        at_selected = selected;
        in_reach = reach;
      },
  λ a. (assert_tenant_access-ok context resource permission).1 (
    member.1 a.granted,
    a.same_organization,
    (AtLocation-iff context resource.location_id).1 (a.at_selected, a.in_reach),
  ),
)
  where
    member :
        (has_permission permission context.permissions ≡ true) ↔ Memᴰ permission context.permissions
    member = has-mem Permission-discrete permission context.permissions

-- A row of another organization is refused, for the permission or for the organization.
pub assert_tenant_access_foreign :
    (context : TenantContext) (resource : TenantOwnedResource) (permission : Permission)
    → resource.organization_id ≢ context.organization_id
    → (assert_tenant_access context resource permission ≡ err (access_denied permission_denied))
      ⊎ (assert_tenant_access context resource permission ≡ err (access_denied organization_denied))
unfolding assert_tenant_access
assert_tenant_access_foreign context resource permission h = ground arith
