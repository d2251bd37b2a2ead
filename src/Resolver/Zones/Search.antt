-- ===== src/Resolver/Zones/Search.antt =====
-- Which zone `_find_zone` of app/dnscore/resolver.py picks.
use nova_dns.Prelude.{
  ℕ, ◌≤◌, ◌≡◌, refl, ◌⊎◌, inl, inr, true, false, ◌&&◌, Option, none, some, List, [], ◌∷◌, arith,
  length, ltb, Bool-cases, ◌∙◌, IsIn,
}
use nova_dns.Text.{Text, text_eq, fold_name, rstrip_dot, lower}
use nova_dns.Wire.Types.{codes}
use nova_dns.Db.{Db, Zone, select}
use nova_dns.Resolver.Clients.{is_under}
use nova_dns.Resolver.Zones.{best_zone, find_zone}

length-rstrip_dot-le : (s : Text) → length (rstrip_dot s) ≤ length s
unfolding rstrip_dot
length-rstrip_dot-le [] = omega arith
length-rstrip_dot-le (c ∷ s) = ground (arith, length-rstrip_dot-le s)

length-lower : (s : Text) → length (lower s) ≡ length s
unfolding lower
length-lower [] = refl
length-lower (c ∷ s) = omega (arith, length-lower s)

length-fold_name-le : (s : Text) → length (fold_name s) ≤ length s
unfolding fold_name
length-fold_name-le s = omega (arith, length-rstrip_dot-le s, length-lower (rstrip_dot s))

-- Each zone of the list has a name of at most this length, or the name does not lie in it.
abbrev pub AllWithin : Text → ℕ → List Zone → Type 0
AllWithin qname n [] = Unit
AllWithin qname n (z ∷ zones) =
    ((is_under qname (fold_name z.name) ≡ false) ⊎ (length (fold_name z.name) ≤ n))
    × AllWithin qname n zones

-- The name lies in none of them.
abbrev pub NoneOver : Text → List Zone → Type 0
NoneOver qname [] = Unit
NoneOver qname (z ∷ zones) = (is_under qname (fold_name z.name) ≡ false) × NoneOver qname zones

-- The zone is of the list, the name lies in it, and no other zone of the list is closer.
pub record Closest (qname : Text) (zones : List Zone) (b : Zone) : Type 0 where
  pub listed : IsIn b zones
  pub over : is_under qname (fold_name b.name) ≡ true
  pub longest : AllWithin qname (length b.name) zones

-- What the loop makes of a best zone so far.
record Improved (qname : Text) (best : Zone) (zones : List Zone) : Type 0 where
  out : Zone
  result : best_zone qname (some best) zones ≡ some out
  listed : (out ≡ best) ⊎ IsIn out zones
  over : is_under qname (fold_name out.name) ≡ true
  grows : length best.name ≤ length out.name
  longest : AllWithin qname (length out.name) zones

-- the loop's step: a matching zone with a longer name is taken, and any other one passed over
best_zone-take :
    (qname : Text) (best : Option Zone) (z : Zone) (zones : List Zone)
    → is_under qname (fold_name z.name) ≡ true
    → (elim best [ none ↦ true | some b ↦ ltb (length b.name) (length (fold_name z.name)) ]) ≡ true
    → best_zone qname best (z ∷ zones) ≡ best_zone qname (some z) zones
unfolding best_zone
best_zone-take qname best z zones h longer = rw (h, longer)

best_zone-skip :
    (qname : Text) (best : Option Zone) (z : Zone) (zones : List Zone)
    → (is_under qname (fold_name z.name)
        && (elim best [ none ↦ true | some b ↦ ltb (length b.name) (length (fold_name z.name)) ]))
      ≡ false
    → best_zone qname best (z ∷ zones) ≡ best_zone qname best zones
unfolding best_zone
best_zone-skip qname best z zones h = rw h

improve :
    (qname : Text) (best : Zone) (zones : List Zone)
    → is_under qname (fold_name best.name) ≡ true
    → Improved qname best zones
improve qname best [] h = record {
  out = best;
  result = unfold best_zone in refl;
  listed = inl refl;
  over = h;
  grows = omega arith;
  longest = tt;
}
improve qname best (z ∷ zones) h = elim (Bool-cases (is_under qname (fold_name z.name))) [
  | inl m ↦ elim (Bool-cases (ltb (length best.name) (length (fold_name z.name)))) [
    | inl longer ↦
        let i = improve qname z zones m in
        record {
          out = i.out;
          result = best_zone-take qname (some best) z zones m longer ∙ i.result;
          listed = inr i.listed;
          over = i.over;
          grows = ground (arith, i.grows, length-fold_name-le z.name);
          longest = (inr (ground (arith, i.grows, length-fold_name-le z.name)), i.longest);
        }
    | inr shorter ↦
        let i = improve qname best zones h in
        record {
          out = i.out;
          result = best_zone-skip qname (some best) z zones (rw (m, shorter)) ∙ i.result;
          listed = passed i.listed;
          over = i.over;
          grows = i.grows;
          longest = (inr (ground (arith, i.grows)), i.longest);
        }
  ]
  | inr m ↦
      let i = improve qname best zones h in
      record {
        out = i.out;
        result = best_zone-skip qname (some best) z zones (rw m) ∙ i.result;
        listed = passed i.listed;
        over = i.over;
        grows = i.grows;
        longest = (inl m, i.longest);
      }
]
  where
    passed :
        {out : Zone} → (out ≡ best) ⊎ IsIn out zones → (out ≡ best) ⊎ ((out ≡ z) ⊎ IsIn out zones)
    passed (inl e) = inl e
    passed (inr i) = inr (inr i)

-- With no best zone yet.
pick :
    (qname : Text) (zones : List Zone)
    → (best_zone qname none zones ≡ none) × NoneOver qname zones
      ⊎ (b : Zone) × (best_zone qname none zones ≡ some b) × Closest qname zones b
pick qname [] = inl (unfold best_zone in refl, tt)
pick qname (z ∷ zones) = elim (Bool-cases (is_under qname (fold_name z.name))) [
  | inl m ↦
      let i = improve qname z zones m in
      inr (
        i.out,
        best_zone-take qname none z zones m refl ∙ i.result,
        record {
          listed = i.listed;
          over = i.over;
          longest = (inr (ground (arith, i.grows, length-fold_name-le z.name)), i.longest);
        },
      )
  | inr m ↦ elim (pick qname zones) [
    | inl (e, n) ↦ inl (best_zone-skip qname none z zones (rw m) ∙ e, (m, n))
    | inr (b, e, c) ↦ inr (
      b,
      best_zone-skip qname none z zones (rw m) ∙ e,
      record { listed = inr c.listed; over = c.over; longest = (inl m, c.longest) },
    )
  ]
]

-- The zones that `_find_zone` reads.
abbrev pub authoritative_zones : Db → List Zone
authoritative_zones db = select (λ z. text_eq z.ztype (codes "authoritative")) db.zones

-- The search finds no zone just when the name lies in no authoritative zone; else it finds an
-- authoritative zone that the name lies in, and no authoritative zone that the name lies in has,
-- without its closing dots, a longer name than the one found has with them.
pub find_zone-Closest :
    (db : Db) (qname : Text)
    → (find_zone db qname ≡ none) × NoneOver (fold_name qname) (authoritative_zones db)
      ⊎ (b : Zone) × (find_zone db qname ≡ some b)
        × Closest (fold_name qname) (authoritative_zones db) b
unfolding find_zone
find_zone-Closest db qname = pick (fold_name qname) (authoritative_zones db)
