-- ===== src/Alib/Parser/Listing/Chosen.antt =====
-- internal/alib/parser.go: which nodes `listingNodes` takes for the title and the links of a listing.
use alib_fetcher.Base.{
  ◌≡◌, refl, List, [], ◌∷◌, text, Option, none, some, Bool, true, false, not, ◌&&◌, if◌then◌else◌,
  text_eq, has_text, arith,
}
use alib_fetcher.Html.{Node, node}
use alib_fetcher.Alib.Parser.Texts.{is_element, normalized_text, href, descendants}
use alib_fetcher.Alib.Parser.Listing.{ListingNodes, note_node, note_nodes, listing_nodes}

-- A title is in bold, and does not say "Купить".
abbrev pub is_title : Node → Bool
is_title n = is_element (text "b") n && not (text_eq (normalized_text n) (text "Купить"))

-- The link of a seller leads to a page of this name.
abbrev pub is_seller_link : Node → Bool
is_seller_link n = is_element (text "a") n && has_text (href n) (text "bs.php4")

-- The buy link is the one that says "Купить".
abbrev pub is_buy_link : Node → Bool
is_buy_link n = is_element (text "a") n && text_eq (normalized_text n) (text "Купить")

abbrev pub or_else : Option Node → Option Node → Option Node
or_else (some n) other = some n
or_else none other = other

abbrev pub only : (Node → Bool) → Node → Option Node
only p n = if p n then some n else none

abbrev pub first_of : (Node → Bool) → List Node → Option Node
first_of p [] = none
first_of p (n ∷ ns) = or_else (only p n) (first_of p ns)

abbrev pub last_of : (Node → Bool) → List Node → Option Node
last_of p [] = none
last_of p (n ∷ ns) = or_else (last_of p ns) (only p n)

-- The first title below the paragraph, the first link of a seller, and the last buy link.
abbrev pub title_of : Node → Option Node
title_of paragraph = first_of is_title (descendants paragraph)

abbrev pub seller_of : Node → Option Node
seller_of paragraph = first_of is_seller_link (descendants paragraph)

abbrev pub buy_link_of : Node → Option Node
buy_link_of paragraph = last_of is_buy_link (descendants paragraph)

or_else_assoc : (a b c : Option Node) → or_else (or_else a b) c ≡ or_else a (or_else b c)
or_else_assoc none b c = refl
or_else_assoc (some n) b c = refl

or_else-none : (a : Option Node) → or_else a none ≡ a
or_else-none none = refl
or_else-none (some n) = refl

bold_is_no_link : (n : Node) → is_element (text "b") n ≡ true → is_element (text "a") n ≡ false
unfolding text_eq
bold_is_no_link (node identity node_type [] attributes children) h = ground arith
bold_is_no_link (node identity node_type (c ∷ []) attributes children) h = ground arith
bold_is_no_link (node identity node_type (c ∷ d ∷ cs) attributes children) h = ground arith

-- What is noted so far, and after it the nodes.
abbrev noted : List Node → ListingNodes → ListingNodes
noted ns found = record {
  title = or_else found.title (first_of is_title ns);
  seller = or_else found.seller (first_of is_seller_link ns);
  buy = or_else (last_of is_buy_link ns) found.buy;
}

note_node-noted :
    (n : Node) (title seller buy : Option Node)
    → note_node n (record { title = title; seller = seller; buy = buy }) ≡ record {
      title = or_else title (only is_title n);
      seller = or_else seller (only is_seller_link n);
      buy = or_else (only is_buy_link n) buy;
    }
unfolding note_node
note_node-noted n none none buy = ground (arith, bold_is_no_link n)
note_node-noted n none (some s) buy = ground (arith, bold_is_no_link n)
note_node-noted n (some t) none buy = ground (arith, bold_is_no_link n)
note_node-noted n (some t) (some s) buy = ground (arith, bold_is_no_link n)

note_nodes-noted : (ns : List Node) (found : ListingNodes) → note_nodes ns found ≡ noted ns found
unfolding note_nodes
note_nodes-noted [] found = rw (or_else-none found.title, or_else-none found.seller) refl
note_nodes-noted (n ∷ ns) found =
    rw
      (
        note_nodes-noted ns (note_node n found),
        note_node-noted n found.title found.seller found.buy,
        or_else_assoc found.title (only is_title n) (first_of is_title ns),
        or_else_assoc found.seller (only is_seller_link n) (first_of is_seller_link ns),
        or_else_assoc (last_of is_buy_link ns) (only is_buy_link n) found.buy,
      )
      refl

pub listing_nodes-chosen :
    (paragraph : Node)
    → listing_nodes paragraph ≡ record {
      title = title_of paragraph;
      seller = seller_of paragraph;
      buy = buy_link_of paragraph;
    }
unfolding listing_nodes
listing_nodes-chosen paragraph =
    rw
      (
        note_nodes-noted (descendants paragraph)
            (record { title = none; seller = none; buy = none }),
        or_else-none (buy_link_of paragraph),
      )
      refl
