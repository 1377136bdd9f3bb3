-- ===== src/Tests.antt =====
-- Runs of the theorems on small concrete states of util/ and vmsim/.
mod TableTest
mod QueueTest
mod BitmapTest
mod MapTest
mod StoreTest
mod MmuTest
mod PagedTest
mod AgingTest
mod PcbTest
mod SystemTest
mod WorkerTest
mod AppTest
mod UiTest
