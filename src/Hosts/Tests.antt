-- ===== src/Hosts/Tests.antt =====
-- The theorems on the hosts file at a small one.
use Prim.Native.String.{◌++◌ as string_append}
use innernet.Prelude.{String, ◌≡◌, refl, false, List, [], ◌∷◌, ◌++◌, any}
use innernet.Net.{v4}
use innernet.Hosts.{
  HostsBuilder, Text, lines, begin_marker, end_marker, entries, section, is_marker, write_to, join,
}
use innernet.Hosts.Section.{HasNoMarker, write_to-replaces}

abbrev text : Text
text = record { trim = λ s. s; show_ip = λ ip. "10.0.0.1"; concat = string_append }

abbrev one : HostsBuilder
one = record { tag = "net"; hostname_map = (v4 1, "a.net.wg" ∷ []) ∷ [] }

abbrev two : HostsBuilder
two = record { tag = "net"; hostname_map = (v4 1, "b.net.wg" ∷ "c.net.wg" ∷ []) ∷ [] }

abbrev old : List String
old = "127.0.0.1 localhost" ∷ []

no_marker : HasNoMarker text one old
unfolding begin_marker end_marker
no_marker = (refl, refl)

blank_is_none : HasNoMarker text one ("" ∷ [])
unfolding begin_marker end_marker
blank_is_none = (refl, refl)

plain :
    any
      (is_marker text (end_marker text one))
      (begin_marker text one ∷ entries text one.hostname_map)
    ≡ false
unfolding begin_marker end_marker entries join
plain = refl

write_to-replaces_example :
    write_to text one
      (old ++ "# DO NOT EDIT net BEGIN" ∷ ("10.0.0.9 stale" ∷ [] ++ "# DO NOT EDIT net END" ∷ old))
    ≡ lines (old ++ section text one ++ old)
unfolding begin_marker end_marker
write_to-replaces_example =
    write_to-replaces text one old ("10.0.0.9 stale" ∷ []) old "# DO NOT EDIT net BEGIN"
      "# DO NOT EDIT net END" no_marker refl refl refl
