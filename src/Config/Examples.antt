-- ===== src/Config/Examples.antt =====
-- Tests of config.py.
use greenference_node.Base.{◌≡◌, refl, some, [], ◌∷◌}
use greenference_node.Dict.{insert, lookup}
use greenference_node.Text.Words.{split, join, is_empty, strip_text}
use greenference_node.Config.{has_char, add_label, parse_node_labels}
use greenference_node.Config.Labels.{print_labels, last_value, lookup-parse_node_labels}

parsed : parse_node_labels "a = x ,b,=z, c=d=e,a=y" ≡ ("a", "y") ∷ ("c", "d=e") ∷ []
unfolding parse_node_labels split add_label is_empty strip_text insert
parsed = refl

lookup-parse_node_labels_example :
    lookup "domain" (parse_node_labels "domain=ams,gbps=100,domain=fra") ≡ some "fra"
unfolding has_char strip_text is_empty join last_value print_labels
lookup-parse_node_labels_example =
    lookup-parse_node_labels "domain" (("domain", "ams") ∷ ("gbps", "100") ∷ ("domain", "fra") ∷ [])
      ((
        ((refl, refl, refl), refl),
        (refl, refl, refl),
        (
          ((refl, refl, refl), refl),
          (refl, refl, refl),
          (((refl, refl, refl), refl), (refl, refl, refl), tt),
        ),
      ))
