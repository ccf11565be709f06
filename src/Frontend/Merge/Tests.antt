-- ===== src/Frontend/Merge/Tests.antt =====
-- A change of the sort order in a nested request.
use tillerinobot.Prelude.{◌≡◌, refl, none, some, eq_iff, arith}
use tillerinobot.Frontend.Merge.{
  Value, null, num, str, obj, Fields, end, field, lookup, insert, or_empty, assign, child,
  deep_merge, range_req, or_nothing,
}
use tillerinobot.Frontend.Merge.Laws.{Distinct, MergesTo, deep_merge-MergesTo}

abbrev request : Fields
request = field "start" (num "0") (field "searches" (obj (field "text" (str "a") end)) end)

abbrev change : Fields
change =
    field "searches" (obj (field "text" null (field "id" (num "7") end)))
      (field "start" (num "5") end)

abbrev changed : Value
changed = obj (
    field "start" (num "5")
      (field "searches" (obj (field "text" null (field "id" (num "7") end))) end))

merges : Unit {0}
unfolding deep_merge assign child lookup insert or_empty range_req or_nothing
merges = tt

deep_merge_test : deep_merge (obj request) change ≡ some changed
unfolding merges
deep_merge_test = refl

-- An object does not go into a number.
deep_merge_fails :
    deep_merge
      (obj (field "start" (num "1") end))
      (field "start" (obj (field "x" (obj (field "y" null end)) end)) end)
    ≡ none
unfolding merges
deep_merge_fails = refl

change-Distinct : Distinct change
change-Distinct = ((ground (arith, eq_iff "start" "searches"), tt), (tt, tt))

deep_merge-MergesTo_example : MergesTo request change changed
deep_merge-MergesTo_example =
    deep_merge-MergesTo request change changed change-Distinct deep_merge_test

range_req_test :
    range_req (obj request) (record { copy = some change; mod_ = none })
    ≡ some (obj request, changed)
unfolding merges
range_req_test = refl
