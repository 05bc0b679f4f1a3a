-- ===== src/Tests.antt =====
-- Concrete inputs for the theorems, and runs of the definitions on the inputs of the unit tests of
-- the repository.
mod Headers
mod HeaderMaps
mod Fixtures
mod PolicyTests
mod CacheTests
mod RequestTests
mod ConfigTests
mod HeaderTests
mod PipelineTests
mod HandlerTests
mod StoringTests
mod ServerTests
mod RequestsTests
mod HistoryTests
mod ForwardingTests
mod ServingTests
mod StartupTests
mod CacheBodyTests
mod ReuseTests
mod CachingTests
mod UnitTests
