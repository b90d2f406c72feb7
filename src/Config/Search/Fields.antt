-- ===== src/Config/Search/Fields.antt =====
-- internal/config/search.go: the fields of the form of Alib, and the rubrics.
use alib_fetcher.Base.{List, [], ◌∷◌, ◌++◌, Text, text, fields}

abbrev pub search_field_author : Text
search_field_author = text "author"

abbrev pub search_field_title : Text
search_field_title = text "title"

abbrev pub search_field_seria : Text
search_field_seria = text "seria"

abbrev pub search_field_publisher : Text
search_field_publisher = text "izdat"

abbrev pub search_field_city_pub : Text
search_field_city_pub = text "gorodiz"

abbrev pub search_field_isbn : Text
search_field_isbn = text "isbnp"

abbrev pub search_field_year_from : Text
search_field_year_from = text "god1"

abbrev pub search_field_year_to : Text
search_field_year_to = text "god2"

abbrev pub search_field_price_from : Text
search_field_price_from = text "cena1"

abbrev pub search_field_price_to : Text
search_field_price_to = text "cena2"

abbrev pub search_field_annotation : Text
search_field_annotation = text "sod"

abbrev pub search_field_seller : Text
search_field_seller = text "bsonly"

abbrev pub search_field_city_seller : Text
search_field_city_seller = text "gorod"

abbrev pub search_field_last_days : Text
search_field_last_days = text "lday"

abbrev pub search_field_no_reprint : Text
search_field_no_reprint = text "noreprint"

abbrev pub search_field_no_engraving : Text
search_field_no_engraving = text "nograv"

abbrev pub search_field_photo_only : Text
search_field_photo_only = text "fotoonly"

abbrev pub search_field_minus : Text
search_field_minus = text "minus"

abbrev pub search_field_price_range : Text
search_field_price_range = text "sumfind"

abbrev pub search_field_category : Text
search_field_category = text "tipfind"

abbrev pub search_field_sort : Text
search_field_sort = text "sortby"

abbrev pub alib_search_fields : List Text
alib_search_fields =
    search_field_author ∷ search_field_title ∷ search_field_seria ∷ search_field_publisher
    ∷ search_field_city_pub ∷ search_field_isbn ∷ search_field_year_from ∷ search_field_year_to
    ∷ search_field_price_from ∷ search_field_price_to ∷ search_field_annotation
    ∷ search_field_seller ∷ search_field_city_seller ∷ search_field_last_days
    ∷ search_field_no_reprint ∷ search_field_no_engraving ∷ search_field_photo_only
    ∷ search_field_minus ∷ search_field_price_range ∷ search_field_category ∷ search_field_sort ∷ []

-- The literal of the source, in rows.
abbrev rubric_rows : List Text
rubric_rows =
    text "prod prog t18 t19poem t2mv t46 t50 t5rekom tacademia tagro tamed tanart tandet"
    ∷ text "tandokum tandr tangeo tangl tanist tanlit tanotkr tanpaper tanper tanpoem tanprom"
    ∷ text "tanproz tanvoina tarheolog tarhitek tarktika tastro tauto tavstralia tbalkan tbazia"
    ∷ text "tbiograf tbiolog tbona tbrail tbrit tbros tbuddizm tcentru tchina tdelo tdetekti"
    ∷ text "tdeto tdetskaz tdetton tdetuch tdetz tdmed tdo10 tdo15 tdo1m tdo1s tdo1t tdo20 tdo2s"
    ∷ text "tdo30 tdo3s tdo50 tdo5s tdo5t tdo70 tdo7s tdokum tdrafr tdrama tdrazia tdreu tdris"
    ∷ text "tdrkult tdrnauka tdrrelig tdrteh tegipet tekolog tekonom tenergo tetnos tfant"
    ∷ text "tfinans tfiz tfmed tfoto tgeo tger thimia thmed thobby thorror thrist tind tiroman"
    ∷ text "tiross0 tiross1 tiross2 tiross3 tirossdr tisant tisbur tisdrev tiskus tislam tisnov"
    ∷ text "tisperv tissred tistor tiudaica tiudaizm tjivo tjp tjurnal tkav tkiber tkino tkmed"
    ∷ text "tknigove tkoll tkomiks tkrym tkulinar tlegprom tletu tlingbook tlingdr tlingrus"
    ∷ text "tlingslov tlingsssr tlinguch tlit tlroman tmagia tmaps tmarx tmat tmed tmemart"
    ∷ text "tmemlit tmemnauka tmemsport tmemvoina tmetall tmini tmoda tmsk tmuzei tnauka tnedra"
    ∷ text "tnmed tnobel tnotes to19proz tofant togorod tohota toproz totdel totkr tpaper"
    ∷ text "tpartner tpedagog tper tphant tphbur tphil tphonov tphsred tphvost tphznov tpmed"
    ∷ text "tpodarok tpodp tpoem tpolit tposob10 tposobsam tposobu tprikl tprom tpsi tput tr1917"
    ∷ text "tradio tramka transavia transgd transnaz transvod trazved trelig tremont treprint"
    ∷ text "trom tross trudno tsamer tsazia tsbp tsbvl tsdelay tsever tsex tshah tsib tsjzl"
    ∷ text "tskan tskidka tslovar tslp tsocio tspb tsport tsppv tsprav tstroit tstroy tuamer"
    ∷ text "tuga tukr tumor tural tvdelo tvet tvlit tvoina tz18proz tz19proz tzakon tzfant"
    ∷ text "tzproz tzross tzveri"
    ∷ []

abbrev words_of : List Text → List Text
words_of [] = []
words_of (row ∷ rows) = fields row ++ words_of rows

-- `alibTipfindValues`
unfoldable pub alib_tipfind_values : List Text
unfolding fields
alib_tipfind_values = words_of rubric_rows
