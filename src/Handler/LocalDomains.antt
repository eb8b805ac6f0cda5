-- ===== src/Handler/LocalDomains.antt =====
-- Which domains are local once `_load_lists_to_redis` of policyd_py/policy/handler.py has returned.
use policyd_py.Base.{
  ◌≡◌, refl, ap, sym, ◌>>=◌, ◌>>◌, ◌∙◌, arith, not, ◌&&◌, Bool, true, false, ◌||◌, none, List, [],
  ◌∷◌, ◌++◌, is_empty, Text, lower, starts_with, text_eq, text_eq_iff, mem_text, returned,
  continue-returned,
}
use policyd_py.Base.Dict.{Dict}
use policyd_py.Floats.{Floats}
use policyd_py.Outside.{Outside}
use policyd_py.Redis
use policyd_py.Handler.{Engine, Handler, is_local_domain}
use policyd_py.Handler.Lists.{
  insert, sorted_set, ldap_marker, resolved, ldap_domains, resolve_from, collect, list_key,
  add_members, resolve_members, load_section, load_lists_to_redis,
}

mem-append : (x : Text) (s t : List Text) → mem_text x (s ++ t) ≡ (mem_text x s || mem_text x t)
mem-append x [] t = refl
mem-append x (y ∷ s) t = ground (arith, mem-append x s t)

mem-insert :
    (x y : Text) (ys : List Text) → mem_text x (insert y ys) ≡ (text_eq x y || mem_text x ys)
unfolding insert
mem-insert x y [] = refl
mem-insert x y (z ∷ ys) =
    ground (arith, mem-insert x y ys, text_eq_iff y z, text_eq_iff x z, text_eq_iff x y)

-- A text that is not empty is in a list that is sorted and rid of doubles as it was before.
mem-sorted_set :
    (x : Text) (xs : List Text) → is_empty x ≡ false → mem_text x (sorted_set xs) ≡ mem_text x xs
unfolding sorted_set text_eq
mem-sorted_set [] xs n = cc
mem-sorted_set (c ∷ x) [] n = refl
mem-sorted_set (c ∷ x) ([] ∷ xs) n = mem-sorted_set (c ∷ x) xs n
mem-sorted_set (c ∷ x) ((d ∷ y) ∷ xs) n =
    mem-insert (c ∷ x) (d ∷ y) (sorted_set xs)
    ∙ ap (λ b. text_eq (c ∷ x) (d ∷ y) || b) (mem-sorted_set (c ∷ x) xs n)

-- A member that is no request to LDAP and is `x` in lower case.
abbrev names : Text → Text → Bool
names x member =
    not (is_empty member) && not (starts_with member ldap_marker) && text_eq x (lower member)

abbrev in_members : Text → List Text → Bool
in_members x [] = false
in_members x (member ∷ members) = names x member || in_members x members

-- Whether one of the lists names `x`.
abbrev pub in_lists : Text → Dict (List Text) → Bool
in_lists x [] = false
in_lists x ((list_name, members) ∷ items) = in_members x members || in_lists x items

first_and_rest :
    (c a b m k l : Bool) → k ≡ (c && a || m) → l ≡ (c && b || k) → l ≡ (c && (a || b) || m)
first_and_rest c a b m k l p q = ground arith

module _ (F : Floats) (o : Outside F.Float) (e : Engine F o.World) where
  open o use {World}
  open e use {config}

  mem-resolved :
      (x member : Text) (w : World) → mem_text x (resolved F o e none member w).0 ≡ names x member
  unfolding resolved ldap_domains
  mem-resolved x member w = ground arith

  mem-resolve_from :
      (x : Text) (result members : List Text) (w : World)
      → mem_text x (resolve_from F o e none result members w).0
        ≡ (mem_text x result || in_members x members)
  unfolding resolve_from
  mem-resolve_from x result [] w = ground arith
  mem-resolve_from x result (member ∷ members) w = ground (
    arith,
    mem-resolve_from x (result ++ (resolved F o e none member w).0) members
        (resolved F o e none member w).1,
    mem-append x result (resolved F o e none member w).0,
    mem-resolved x member w,
  )

  mem-collect :
      (x : Text) (c : Bool) (normalized : List Text) (h : Handler World)
      → mem_text x (collect F o e none c normalized h).local_domains
        ≡ (c && mem_text x normalized || mem_text x h.local_domains)
  unfolding collect
  mem-collect x false normalized h = refl
  mem-collect x true normalized h = mem-append x normalized h.local_domains

  mem-add_members :
      (x : Text) (c : Bool) (name : Text) (normalized : List Text) (h : Handler World)
      → (add_members F o e none c name normalized h).0 ≡ returned tt
      → mem_text x (add_members F o e none c name normalized h).1.local_domains
        ≡ (c && mem_text x normalized || mem_text x h.local_domains)
  unfolding add_members
  mem-add_members x c name [] h r = ground arith
  mem-add_members x c name (m ∷ normalized) h r =
      let (u, _, ran) =
        continue-returned (λ _ h. (returned tt, collect F o e none c (m ∷ normalized) h))
          (Redis.sadd o (list_key name) (m ∷ normalized) h.redis).0
          (record h { redis = (Redis.sadd o (list_key name) (m ∷ normalized) h.redis).1 }) tt r in
      ap (λ r. mem_text x r.1.local_domains) ran
      ∙ mem-collect x c (m ∷ normalized)
          (record h { redis = (Redis.sadd o (list_key name) (m ∷ normalized) h.redis).1 })

  -- The handler once the key of a list is deleted and its members are resolved.
  abbrev deleted : Text → Handler World → Handler World
  deleted name h = record h { redis = (Redis.delete o (list_key name) h.redis).1 }

  abbrev members_of : Text → List Text → Handler World → List Text
  members_of name members h =
      sorted_set (resolve_from F o e none [] members (deleted name h).redis.world).0

  abbrev at_members : Text → List Text → Handler World → Handler World
  at_members name members h = (resolve_members F o e none members (deleted name h)).1

  abbrev added_to : Bool → Text → List Text → Handler World → Handler World
  added_to c name members h =
      (add_members F o e none c name (members_of name members h) (at_members name members h)).1

  mem-members_of :
      (x name : Text) (members : List Text) (h : Handler World)
      → is_empty x ≡ false
      → mem_text x (members_of name members h) ≡ in_members x members
  mem-members_of x name members h n =
      mem-sorted_set x (resolve_from F o e none [] members (deleted name h).redis.world).0 n
      ∙ mem-resolve_from x [] members (deleted name h).redis.world

  mem-load_section :
      (x : Text) (c : Bool) (items : Dict (List Text)) (h : Handler World)
      → is_empty x ≡ false
      → (load_section F o e none c items h).0 ≡ returned tt
      → mem_text x (load_section F o e none c items h).1.local_domains
        ≡ (c && in_lists x items || mem_text x h.local_domains)
  unfolding load_section resolve_members
  mem-load_section x c [] h n r = ground arith
  mem-load_section x c ((name, members) ∷ items) h n r =
      let (u, _, ran) =
        continue-returned
          (λ _. resolve_members F o e none members >>= λ normalized.
            add_members F o e none c name normalized >> load_section F o e none c items)
          (Redis.delete o (list_key name) h.redis).0 (deleted name h) tt r in
      let (v, added, ran') =
        continue-returned (λ _. load_section F o e none c items)
          (add_members F o e none c name (members_of name members h) (at_members name members h)).0
          (add_members F o e none c name (members_of name members h) (at_members name members h)).1
          tt (sym (ap (λ r. r.0) ran) ∙ r) in
      ap (λ r. mem_text x r.1.local_domains) (ran ∙ ran')
      ∙ first_and_rest c (in_members x members) (in_lists x items) (mem_text x h.local_domains)
          (mem_text x (added_to c name members h).local_domains)
          (mem_text x (load_section F o e none c items (added_to c name members h)).1.local_domains)
          (mem-add_members x c name (members_of name members h) (at_members name members h) added
            ∙ ap (λ b. c && b || mem_text x h.local_domains) (mem-members_of x name members h n))
          (mem-load_section x c items (added_to c name members h) n
            (sym (ap (λ r. r.0) ran') ∙ (sym (ap (λ r. r.0) ran) ∙ r)))

  or_nothing_before : (b : Bool) → (true && b || false) ≡ b
  or_nothing_before b = ground arith

  abbrev cleared : Handler World → Handler World
  cleared h = record h { local_domains = [] }

  abbrev with_domains : Handler World → Handler World
  with_domains h = (load_section F o e none true config.limits.domain_lists (cleared h)).1

  abbrev with_accounts : Handler World → Handler World
  with_accounts h = (load_section F o e none false config.limits.account_lists (with_domains h)).1

  -- Where there is no LDAP client: if `_load_lists_to_redis` returns, then a domain is local exactly if it is
  -- not empty and one of the domain lists of the configuration has it, up to the case of its letters, as a
  -- member without the LDAP marker; whatever was local before, and whatever the other lists hold.
  pub load_lists-local_domains :
      (h : Handler World) (domain : Text)
      → (load_lists_to_redis F o e none h).0 ≡ returned tt
      → is_local_domain (load_lists_to_redis F o e none h).1.local_domains domain
        ≡ (not (is_empty domain) && in_lists (lower domain) config.limits.domain_lists)
  unfolding load_lists_to_redis is_local_domain
  load_lists-local_domains h [] r = refl
  load_lists-local_domains h (d ∷ domain) r =
      let (u, first, ran) =
        continue-returned
          (λ _.
            load_section F o e none false config.limits.account_lists
            >> load_section F o e none false config.limits.ip_lists)
          (load_section F o e none true config.limits.domain_lists (cleared h)).0
          (load_section F o e none true config.limits.domain_lists (cleared h)).1 tt r in
      let (v, second, ran') =
        continue-returned (λ _. load_section F o e none false config.limits.ip_lists)
          (load_section F o e none false config.limits.account_lists (with_domains h)).0
          (load_section F o e none false config.limits.account_lists (with_domains h)).1 tt
          (sym (ap (λ r. r.0) ran) ∙ r) in
      ap (λ r. mem_text (lower (d ∷ domain)) r.1.local_domains) (ran ∙ ran')
      ∙ (mem-load_section (lower (d ∷ domain)) false config.limits.ip_lists (with_accounts h) refl
            (sym (ap (λ r. r.0) ran') ∙ (sym (ap (λ r. r.0) ran) ∙ r))
          ∙ (mem-load_section (lower (d ∷ domain)) false config.limits.account_lists
                (with_domains h) refl second
              ∙ (mem-load_section (lower (d ∷ domain)) true config.limits.domain_lists (cleared h)
                    refl first
                  ∙ or_nothing_before (in_lists (lower (d ∷ domain)) config.limits.domain_lists))))
