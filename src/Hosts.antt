-- ===== src/Hosts.antt =====
-- hostsfile/src/lib.rs: a tagged section of the hosts file. A file is the list of its lines.
pub mod Section
pub mod Tests
use innernet.Prelude.{
  ℕ, zero, suc, String, Bool, Option, none, some, List, [], ◌∷◌, ◌++◌, map, ltb, if◌then◌else◌,
  ◌==◌, nat_eq, string_eq, option_eq, length,
}
use innernet.Net.{IpAddr, ip_eq}

-- The map from addresses to names, in the order in which it is iterated.
pub record HostsBuilder : Type 0 where
  pub tag : String
  pub hostname_map : List (IpAddr × List String)

-- What the code takes from the standard library.
pub record Text : Type 0 where
  pub trim : String → String
  pub show_ip : IpAddr → String
  pub concat : String → String → String

unfoldable pub new : String → HostsBuilder
new tag = record { tag = tag; hostname_map = [] }

-- `entry(ip).or_insert(…)`, and what is pushed to it.
unfoldable pub push_names :
    IpAddr → List String → List (IpAddr × List String) → List (IpAddr × List String)
push_names ip names [] = (ip, names) ∷ []
push_names ip names ((a, old) ∷ rest) =
    let later = push_names ip names rest in
    if a == ip then (a, old ++ names) ∷ rest else (a, old) ∷ later

unfoldable pub add_hostname : IpAddr → String → HostsBuilder → HostsBuilder
unfolding push_names
add_hostname ip hostname b = record b {
  hostname_map = push_names ip (hostname ∷ []) b.hostname_map;
}

unfoldable pub add_hostnames : IpAddr → List String → HostsBuilder → HostsBuilder
unfolding push_names
add_hostnames ip hostnames b = record b { hostname_map = push_names ip hostnames b.hostname_map }

-- `iter().position(…)`, `drain(begin..end + 1)` and the two slices at `insert`.
unfoldable pub position : (String → Bool) → List String → Option ℕ
position p [] = none
position p (x ∷ xs) =
    let rest = position p xs in
    if p x then some 0 else elim rest [ none ↦ none | some i ↦ some (suc i) ]

unfoldable pub take : ℕ → List String → List String
take zero xs = []
take (suc n) [] = []
take (suc n) (x ∷ xs) = x ∷ take n xs

unfoldable pub drop : ℕ → List String → List String
drop zero xs = xs
drop (suc n) [] = []
drop (suc n) (x ∷ xs) = drop n xs

-- A blank line before a new section.
unfoldable pub with_blank : List String → List String
with_blank [] = []
with_blank (x ∷ []) = if x == "" then x ∷ [] else x ∷ "" ∷ []
with_blank (x ∷ (y ∷ ys)) = x ∷ with_blank (y ∷ ys)

-- How `write_to` ends: with the new lines, with an error, or in the panic of `drain` on a range that
-- ends before it starts.
pub data Written : Type 0 where
  lines : List String → Written
  marker_missing panicked : Written

module _ (t : Text) where
  unfoldable pub begin_marker : HostsBuilder → String
  begin_marker b = t.concat "# DO NOT EDIT " (t.concat b.tag " BEGIN")

  unfoldable pub end_marker : HostsBuilder → String
  end_marker b = t.concat "# DO NOT EDIT " (t.concat b.tag " END")

  -- `hostnames.join(" ")`
  unfoldable pub join : List String → String
  join [] = ""
  join (x ∷ []) = x
  join (x ∷ (y ∷ ys)) = t.concat x (t.concat " " (join (y ∷ ys)))

  unfoldable pub entries : List (IpAddr × List String) → List String
  entries m = map (λ e. t.concat (t.show_ip e.0) (t.concat " " (join e.1))) m

  abbrev pub section : HostsBuilder → List String
  section b = elim b.hostname_map [
    | [] ↦ []
    | _ ∷ _ ↦ begin_marker b ∷ (entries b.hostname_map ++ end_marker b ∷ [])
  ]

  abbrev pub is_marker : String → String → Bool
  is_marker marker line = t.trim line == marker

  abbrev pub put : HostsBuilder → ℕ → List String → Written
  put b insert old = lines (take insert old ++ section b ++ drop insert old)

  abbrev pub place : HostsBuilder → List String → Option ℕ → Option ℕ → Written
  place b old (some first) (some final) =
      if ltb (suc final) first
      then panicked
      else put b first (take first old ++ drop (suc final) old)
  place b old none none = put b (length (with_blank old)) (with_blank old)
  place b old (some first) none = marker_missing
  place b old none (some final) = marker_missing

  unfoldable pub write_to : HostsBuilder → List String → Written
  write_to b old =
      place b old (position (is_marker (begin_marker b)) old)
        (position (is_marker (end_marker b)) old)
