-- ===== src/Endpoint/Rest/Fair.antt =====
-- What a request to src/endpoint/restful.c can do to the target: at most one call.
use nvme_dem.Prelude.{
  ◌≡◌, ◌⊎◌, inl, inr, refl, Bool, true, false, ◌||◌, Option, none, some, if◌then◌else◌, CStr,
  Bool-cases,
}
use nvme_dem.Endpoint.Config.{◌>>=◌}
use nvme_dem.Endpoint.Ops.{Call, reset_config, Ops}
use nvme_dem.Endpoint.Rest.Json.{Jansson}
use nvme_dem.Endpoint.Rest.Answer.{
  Status, ok, Served, http_error, bad_request, Reply, parsed, required, carried, deleted,
}

abbrev pub is_ok : Status → Bool
is_ok ok = true
is_ok s = false

-- An operation that returns nothing, and so cannot fail.
abbrev pub is_void : Call → Bool
is_void reset_config = true
is_void c = false

module _ {S J : Type 0} (ops : Ops S) (json : Jansson J) where
  -- One call, whose result is the status.
  abbrev pub MakesCall : S → Served S → Type 0
  MakesCall s a =
      (c : Call) × (a.target ≡ (ops.perform c s).1)
      × (is_ok a.status ≡ ((ops.perform c s).0 || is_void c))

  -- A request that follows a null pointer has no answer; one that is answered left the target as it was
  -- or made one call.
  unfoldable pub IsFair : S → Option (Served S) → Type 0
  IsFair s none = Unit
  IsFair s (some a) = (a.target ≡ s) ⊎ MakesCall s a

  pub null-IsFair : (s : S) → IsFair s none
  unfolding IsFair
  null-IsFair s = tt

  pub kept-IsFair : (a : Served S) (s : S) → a.target ≡ s → IsFair s (some a)
  unfolding IsFair
  kept-IsFair a s h = inl h

  pub carried-IsFair :
      (c : Call) (resp : CStr) (s : S) → is_void c ≡ false → IsFair s (carried ops json c resp s)
  unfolding http_error IsFair
  carried-IsFair c resp s h = elim (Bool-cases (ops.perform c s).0) [
    | inl e ↦ rw e (inr (c, refl, rw e refl))
    | inr e ↦ rw e (inr (c, refl, rw (e, h) refl))
  ]

  pub deleted-IsFair :
      (c : Call) (failed resp : CStr) (s : S)
      → is_void c ≡ false
      → IsFair s (deleted ops json c failed resp s)
  unfolding IsFair
  deleted-IsFair c failed resp s h = elim (Bool-cases (ops.perform c s).0) [
    | inl e ↦ rw e (inr (c, refl, rw e refl))
    | inr e ↦ rw e (inr (c, refl, rw (e, h) refl))
  ]

  pub parsed-IsFair :
      (o : Option J) (s : S) (k : J → Reply ops json)
      → ((j : J) → IsFair s (k j))
      → IsFair s (parsed ops json o s k)
  unfolding http_error
  parsed-IsFair none s k h = kept-IsFair _ s refl
  parsed-IsFair (some j) s k h = h j

  pub required-IsFair :
      (o : Option J) (s : S) (k : J → Reply ops json)
      → ((j : J) → IsFair s (k j))
      → IsFair s (required ops json o s k)
  unfolding http_error
  required-IsFair none s k h = kept-IsFair _ s refl
  required-IsFair (some j) s k h = h j

  pub bind-IsFair :
      (o : Option CStr) (s : S) (k : CStr → Reply ops json)
      → ((t : CStr) → IsFair s (k t))
      → IsFair s (o >>= k)
  bind-IsFair none s k h = null-IsFair s
  bind-IsFair (some t) s k h = h t

  pub if-IsFair :
      (b : Bool) (s : S) (x y : Reply ops json)
      → IsFair s x
      → IsFair s y
      → IsFair s (if b then x else y)
  if-IsFair true s x y h k = h
  if-IsFair false s x y h k = k

  pub bad-IsFair : (s : S) → IsFair s (some (bad_request s))
  unfolding bad_request
  bad-IsFair s = kept-IsFair _ _ refl
